-- ===== src/Vgpu/Hints.antt =====
-- The hint that `vgpu rental` prints, crates/vgpu/src/main.rs, and the `ssh_command` of the control
-- plane's answer, routes/tenant.rs.
use mathlib.Core.Option
use text.Mathlib.TextLemmas.{append-nil}
use computation_market_poc.Prelude.{
  ℕ, ◌≡◌, refl, sym, ap, ◌∙◌, String, Option, none, some, ok, Option-cases, inl, inr, ok_injective,
}
use computation_market_poc.Prelude.Int.{ℤ}
use computation_market_poc.Prelude.Word.{as_i32}
use computation_market_poc.Prelude.Key.{◌==◌, nat_eq}
use computation_market_poc.Prelude.Text.{format}
use computation_market_poc.Prelude.Table.{All, All-fetch, fetch}
use computation_market_poc.Core.Api.{RentalResponse}
use computation_market_poc.Core.Model.{RentalKind}
use computation_market_poc.ControlPlane.Db.{Db, RentalRow}
use computation_market_poc.ControlPlane.Routes.Tenant.{get_rental, ssh_command}
use computation_market_poc.Vgpu.Commands.{endpoint_hint}

-- A port that an agent reported: it fits 32 bits.
abbrev pub PortFits : RentalRow → Type 0
PortFits r = Option.map as_i32 r.ssh_port ≡ r.ssh_port

-- The command of a hint.
abbrev pub command_of : Option (String × String) → Option String
command_of hint = Option.map (λ h. h.1) hint

same_command :
    (host : Option String) (port : Option ℤ)
    → command_of (endpoint_hint RentalKind.ssh host port) ≡ ssh_command RentalKind.ssh host port
unfolding endpoint_hint ssh_command format
same_command none port = refl
same_command (some host) none = refl
same_command (some host) (some port) = rw (append-nil host) refl

-- For a rental of the kind that is reached by SSH, the command that the command line prints is the
-- one that the control plane's answer holds, if the stored ports fit 32 bits.
pub endpoint_hint-ssh_command :
    (id : ℕ) (db : Db) (shown : RentalResponse)
    → All PortFits db.rentals
    → get_rental id db ≡ ok shown
    → shown.kind ≡ RentalKind.ssh
    → command_of (endpoint_hint shown.kind shown.ssh_host shown.ssh_port) ≡ shown.ssh_command
unfolding get_rental
endpoint_hint-ssh_command id db shown fits answer is_ssh =
    elim (Option-cases (fetch (λ s. s.id == id) db.rentals)) [
      | inl unknown ↦ let bad = rw unknown at answer in cc
      | inr (r, found) ↦ elim (Option-cases (fetch (λ n. n.id == r.machine_id) db.machines)) [
        | inl missing ↦ let bad = rw (found, missing) at answer in cc
        | inr (n, there) ↦
            let same = ok_injective (rw (found, there) at answer) in
            let fit = All-fetch PortFits (λ s. s.id == id) db.rentals r fits found in
            let kind : r.kind ≡ RentalKind.ssh =
              ap (λ (x : RentalResponse). x.kind) same ∙ is_ssh in
            let host : shown.ssh_host ≡ r.ssh_host =
              sym (ap (λ (x : RentalResponse). x.ssh_host) same) in
            let port : shown.ssh_port ≡ r.ssh_port =
              sym (ap (λ (x : RentalResponse). x.ssh_port) same) ∙ fit in
            let command : shown.ssh_command ≡ ssh_command RentalKind.ssh r.ssh_host r.ssh_port =
              sym (ap (λ (x : RentalResponse). x.ssh_command) same)
              ∙ ap (λ (k : RentalKind). ssh_command k r.ssh_host r.ssh_port) kind in
            rw (is_ssh, host, port, command) (same_command r.ssh_host r.ssh_port)
      ]
    ]
