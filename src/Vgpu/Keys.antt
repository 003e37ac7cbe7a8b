-- ===== src/Vgpu/Keys.antt =====
-- The key of `vgpu rent`, crates/vgpu/src/main.rs, and what `create_rental` of routes/tenant.rs makes
-- of it.
use computation_market_poc.Prelude.{
  ◌≡◌, ◌⊎◌, inl, inr, refl, String, true, false, Option, none, some, Result, ok, ok_injective,
  Bool-cases, Option-cases, Result-cases,
}
use mathlib.Core.Path.{subst}
use computation_market_poc.Prelude.Text.{trim, is_empty}
use computation_market_poc.Core.Model.{is_http_status_image}
use computation_market_poc.ControlPlane.Routes.Tenant.{rental_key}
use computation_market_poc.Vgpu.Commands.{RentArgs, rent_key}

-- A key that the control plane takes, or one that was given and is blank.
abbrev pub Taken : String → Option String → Type 0
Taken image key =
    ((k : String) × (rental_key key image ≡ ok k))
    ⊎ ((given : String) × (key ≡ some given)
        × (is_empty (trim given) ≡ true)
        × (is_http_status_image image ≡ false))

no_key-Taken : (image : String) → is_http_status_image image ≡ true → Taken image none
unfolding rental_key
no_key-Taken image metal = inl ("", rw metal refl)

given-Taken : (image given : String) → Taken image (some given)
unfolding rental_key
given-Taken image given = elim (Bool-cases (is_empty (trim given))) [
  | inr full ↦ inl (trim given, rw full refl)
  | inl blank ↦ elim (Bool-cases (is_http_status_image image)) [
    | inl metal ↦ inl ("", rw (blank, metal) refl)
    | inr other ↦ inr (given, refl, blank, other)
  ]
]

module _ (read_file : String → Result String String) where
  -- A request to rent that the command line sends is refused for its key only if a key was given,
  -- or read from the file, and is blank, and the image is no Metal job.
  pub rent_key-Taken :
      (args : RentArgs) (key : Option String)
      → rent_key read_file args ≡ ok key
      → Taken args.image key
  unfolding rent_key
  rent_key-Taken args key h = elim (Option-cases args.ssh_key) [
    | inr (given, is) ↦
        subst (Taken args.image) (ok_injective (rw is at h)) (given-Taken args.image given)
    | inl unset ↦ elim (Option-cases args.ssh_key_file) [
      | inr (path, from) ↦ elim (Result-cases (read_file path)) [
        | inl (raw, read) ↦
            subst (Taken args.image) (ok_injective (rw (unset, from, read) at h))
              (given-Taken args.image (trim raw))
        | inr (e, failed) ↦ let bad = rw (unset, from, failed) at h in cc
      ]
      | inl nowhere ↦ elim (Bool-cases (is_http_status_image args.image)) [
        | inl metal ↦
            subst (Taken args.image) (ok_injective (rw (unset, nowhere, metal) at h))
              (no_key-Taken args.image metal)
        | inr other ↦ let bad = rw (unset, nowhere, other) at h in cc
      ]
    ]
  ]
