-- ===== src/Vgpu/Client.antt =====
-- The HTTP client of crates/vgpu/src/main.rs. Sending a request is a parameter, as are the JSON of
-- the bodies and the text of a status, which are libraries.
use Prim.Native.Char.{code}
use computation_market_poc.Prelude.{
  ℕ, nat_beq, leb, ◌&&◌, Bool, String, List, [], ◌∷◌, Option, none, Result, err, ◌>>=◌, map_err,
  get_or, if◌then◌else◌,
}
use computation_market_poc.Prelude.Text.{format, is_empty}

pub data Method : Type 0 where
  get_method post_method delete_method : Method

pub record Request : Type 0 where
  pub method : Method
  pub url : String
  pub query : List (String × String)
  pub body : Option String

pub record Response : Type 0 where
  pub status : ℕ
  pub text : String

-- What an error of the control plane is read with: `error_of` is `v["error"].as_str()` of a text that
-- is JSON, and `status_text` how a status is printed.
pub record Http : Type 0 where
  pub send : Request → Result String Response
  pub error_of : String → Option String
  pub status_text : ℕ → String

-- `trim_end_matches('/')`
unfoldable pub trim_slashes : String → String
trim_slashes String.[] = ""
trim_slashes (String.◌∷◌ c s) =
    let rest = trim_slashes s in
    if is_empty rest && nat_beq (code c) 47 then "" else String.◌∷◌ c rest

pub record Client : Type 0 where
  pub base : String

unfoldable pub new : String → Client
new base = record { base = trim_slashes base }

unfoldable pub url : Client → String → String
url client path = format (client.base ∷ path ∷ [])

abbrev pub is_success : ℕ → Bool
is_success status = leb 200 status && leb status 299

module _ (http : Http) where
  -- Decode the body of a success, or show the control plane's error.
  unfoldable pub parse : {T : Type 0} → (String → Result String T) → Response → Result String T
  parse from_str resp =
      if is_success resp.status
      then map_err (λ e. format ("decoding response: " ∷ resp.text ∷ ": " ∷ e ∷ []))
          (from_str resp.text)
      else err (
          format (
            "control plane returned "
            ∷ http.status_text resp.status
            ∷ ": "
            ∷ get_or (http.error_of resp.text) resp.text
            ∷ []))

  module _ (client : Client) {T : Type 0} (from_str : String → Result String T) where
    unfoldable pub get : String → List (String × String) → Result String T
    get path query =
        http.send
          (record { method = Method.get_method; url = url client path; query = query; body = none })
        >>= parse from_str

    unfoldable pub post : String → Option String → Result String T
    post path body =
        http.send
          (record { method = Method.post_method; url = url client path; query = []; body = body })
        >>= parse from_str

    unfoldable pub delete : String → Result String T
    delete path =
        http.send
          (record { method = Method.delete_method; url = url client path; query = []; body = none })
        >>= parse from_str
