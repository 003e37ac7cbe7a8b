-- ===== src/HostAgent/Agent/Restarts.antt =====
-- An agent and the control plane over a restart of the agent.
use computation_market_poc.Prelude.{
  ◌≡◌, refl, sym, ap, ◌∙◌, String, Option, some, Result, ok, err, map_err, ok_injective, Bool-cases,
  inl, inr, true, false, map, ◌∷◌, [], arith, map_err-eq_ok,
}
use computation_market_poc.Prelude.Int.{ℤ, pos, ltb_ℤ}
use computation_market_poc.Prelude.Text.{format}
use computation_market_poc.Core.Api.{RegisterRequest, RegisterResponse}
use computation_market_poc.ControlPlane.Error.{ApiError}
use computation_market_poc.ControlPlane.Db.{Db}
use computation_market_poc.ControlPlane.Routes.Agent.{register}
use computation_market_poc.ControlPlane.Registration.{register-again, standing}
use computation_market_poc.HostAgent.Benchmark.{Inventory}
use computation_market_poc.HostAgent.Agent.{
  Args, AgentState, StateText, HostSpecs, load_or_init_state, register_request, issued, saved,
  probed_start, start_up,
}

-- `register` and `ensure_ok` of the agent: the control plane's answer, or an error that shows it.
abbrev pub ensure_ok {ℓ} : {A : Type ℓ} → (ApiError → String) → Result ApiError A → Result String A
ensure_ok shown r = map_err (λ e. format ("control plane returned " ∷ shown e ∷ [])) r

module _ (json : StateText) (shown : ApiError → String) where
  -- A run of the agent up to its loop, against a control plane at this database.
  abbrev pub started :
      Args
      → HostSpecs
      → Inventory
      → String
      → Option String
      → String
      → ℤ
      → Db
      → Result String AgentState × Option String
  started args specs inventory uuid file token now db =
      start_up json args specs uuid file (ok inventory)
        (λ req. ensure_ok shown (register token req now db).0)

  saved_lem :
      (args : Args) (specs : HostSpecs) (s s' : AgentState) (file file' : Option String)
      (r : Result String RegisterResponse)
      → saved json args specs s file r ≡ (ok s', file')
      → (told : RegisterResponse) × (r ≡ ok told)
        × (s' ≡ issued s told)
        × (file' ≡ some (json.to_string_pretty (issued s told)))
  saved_lem args specs s s' file file' (ok told) h = (
    told,
    refl,
    sym (ok_injective (ap (λ (x : Result String AgentState × Option String). x.0) h)),
    sym (ap (λ (x : Result String AgentState × Option String). x.1) h),
  )
  saved_lem args specs s s' file file' (err e) h = cc

  probed_lem :
      (args : Args) (specs : HostSpecs) (inventory : Inventory) (s' : AgentState)
      (loaded : Result String AgentState × Option String) (file' : Option String)
      (server : RegisterRequest → Result String RegisterResponse)
      → probed_start json args specs loaded (ok inventory) server ≡ (ok s', file')
      → (s : AgentState) × (loaded.0 ≡ ok s)
        × (saved json args specs s loaded.1 (server (register_request s inventory specs args))
            ≡ (ok s', file'))
  probed_lem args specs inventory s' (ok s, file) file' server h = (s, refl, h)
  probed_lem args specs inventory s' (err e, file) file' server h = cc

  refused_lem :
      (args : Args) (specs : HostSpecs) (inventory : Inventory) (uuid : String)
      (file : Option String) (token : String) (now : ℤ) (db : Db) (s' : AgentState)
      (file' : Option String)
      → ltb_ℤ args.rate_sats_per_min (pos 1) ≡ true
      → started args specs inventory uuid file token now db ≡ (ok s', file')
      → ⊥
  unfolding start_up
  refused_lem args specs inventory uuid file token now db s' file' refused h = ground arith

  -- A start that succeeds has loaded a state, was registered with that state's host id, and saved
  -- what it was told.
  started_lem :
      (args : Args) (specs : HostSpecs) (inventory : Inventory) (uuid : String)
      (file : Option String) (token : String) (now : ℤ) (db : Db) (s' : AgentState)
      (file' : Option String)
      → started args specs inventory uuid file token now db ≡ (ok s', file')
      → (s : AgentState) × (r : RegisterResponse) × ((load_or_init_state json uuid file).0 ≡ ok s)
        × ((register token (register_request s inventory specs args) now db).0 ≡ ok r)
        × (s' ≡ issued s r)
        × (file' ≡ some (json.to_string_pretty (issued s r)))
  unfolding start_up
  started_lem args specs inventory uuid file token now db s' file' h =
      elim (Bool-cases (ltb_ℤ args.rate_sats_per_min (pos 1))) [
        | inl refused ↦
            absurd (refused_lem args specs inventory uuid file token now db s' file' refused h)
        | inr charged ↦
            let server = λ (req : RegisterRequest). ensure_ok shown (register token req now db).0 in
            let h' : probed_start json args specs (load_or_init_state json uuid file) (ok inventory)
                  server
                ≡ (ok s', file') =
              ground arith in
            let (s, loaded, saves) =
              probed_lem args specs inventory s' (load_or_init_state json uuid file) file' server
                h' in
            let (r, answered, is, written) =
              saved_lem args specs s s' _ file' (server (register_request s inventory specs args))
                saves in
            (s, r, loaded, map_err-eq_ok _ _ r answered, is, written)
      ]

  -- The control plane's database after a start whose state was loaded.
  abbrev pub plane_after :
      Args → HostSpecs → Inventory → Result String AgentState → String → ℤ → Db → Db
  plane_after args specs inventory (ok s) token now db =
      (register token (register_request s inventory specs args) now db).1
  plane_after args specs inventory (err e) token now db = db

  -- A start from a file that holds a state, if the control plane answers, does as it is told.
  start_known :
      (args : Args) (specs : HostSpecs) (inventory : Inventory) (uuid token : String) (now : ℤ)
      (db : Db) (s : AgentState) (r : RegisterResponse)
      → ltb_ℤ args.rate_sats_per_min (pos 1) ≡ false
      → (register token (register_request s inventory specs args) now db).0 ≡ ok r
      → started args specs inventory uuid (some (json.to_string_pretty s)) token now db
        ≡ (ok (issued s r), some (json.to_string_pretty (issued s r)))
  unfolding start_up load_or_init_state
  start_known args specs inventory uuid token now db s r charged answered =
      rw (charged, json.from_str-to_string s, answered) refl

  -- An agent has started with success, and starts again from the file that it left, with other
  -- arguments, whose rate is a sat or more, other hardware, another random id and another fresh
  -- token, against the control plane as the first start left it. It succeeds with the same host id,
  -- machine number and token, leaves the file as it was, and no machine is added to the control
  -- plane's, nor is a number, a token or a payout balance changed there.
  pub restart-keeps :
      (args args' : Args) (specs specs' : HostSpecs) (inventory inventory' : Inventory)
      (uuid uuid' : String) (file : Option String) (token token' : String) (now now' : ℤ) (db : Db)
      (s : AgentState) (written : Option String)
      → started args specs inventory uuid file token now db ≡ (ok s, written)
      → ltb_ℤ args'.rate_sats_per_min (pos 1) ≡ false
      → let loaded = (load_or_init_state json uuid file).0 in
        let db' = plane_after args specs inventory loaded token now db in
        (started args' specs' inventory' uuid' written token' now' db' ≡ (ok s, written))
        × (map standing (plane_after args' specs' inventory' (ok s) token' now' db').machines
            ≡ map standing db'.machines)
  unfolding register_request
  restart-keeps args args' specs specs' inventory inventory' uuid uuid' file token token' now now'
        db s written h charged =
      let (s0, r, loaded, answered, is, file_is) =
        started_lem args specs inventory uuid file token now db s written h in
      let req = register_request s0 inventory specs args in
      let req' = register_request s inventory' specs' args' in
      let same_host : req'.host_id ≡ req.host_id = ap (λ (x : AgentState). x.host_id) is in
      let (again, rows) = register-again token token' req req' now now' db r answered same_host in
      let same : issued s r ≡ s = ap (λ (x : AgentState). issued x r) is ∙ sym is in
      let db' = (register token req now db).1 in
      let runs = start_known args' specs' inventory' uuid' token' now' db' s r charged again in
      let stored : written ≡ some (json.to_string_pretty s) =
        file_is ∙ ap (λ (x : AgentState). some (json.to_string_pretty x)) (sym is) in
      let ends : ◌≡◌ {A = Result String AgentState × Option String}
          (ok (issued s r), some (json.to_string_pretty (issued s r))) (ok s, written) =
        rw (same, stored) refl in
      let from = λ (f : Option String). started args' specs' inventory' uuid' f token' now' db' in
      rw loaded (ap from stored ∙ runs ∙ ends, rows)
