-- ===== src/Connection/Admission.antt =====
-- When the gate for offers opens.
use guide_os.Prelude.{
  String, eq_iff, text_eq, ◌≡◌, ◌∙◌, ap, ◌≢◌, ◌↔◌, inl, inr, some, none, Option, arith,
  Option-cases,
}
use guide_os.Prelude.Text.{strip}
use guide_os.Errors.{ok}
use guide_os.Platform.{Platform}
use guide_os.Identity.{validate_guide_os_id}
use guide_os.Validation.{require_nonempty}
use guide_os.Database.{Db, Connection, ConnectionStatus, confirmed, find}
use guide_os.Connection.Intake.{connection_key}
use guide_os.Connection.Gate.{by_status, require_confirmed_connection_for_offer}

module _ (env : Platform) (id guide company : String) (now : Option String) (db : Db)
    (c : Connection) where
  gate_opens :
      validate_guide_os_id guide ≡ ok guide
      → strip id ≢ ""
      → strip company ≢ ""
      → find connection_key (strip id) db.connections ≡ some c
      → c.guide_os_id ≡ guide
      → c.company_id ≡ strip company
      → c.status ≡ confirmed
      → require_confirmed_connection_for_offer env id guide company now db ≡ ok c
  unfolding require_confirmed_connection_for_offer require_nonempty
  gate_opens valid a b found g k s = ground (
    arith,
    eq_iff (strip id) "",
    eq_iff (strip company) "",
    eq_iff c.guide_os_id guide,
    eq_iff c.company_id (strip company),
  )

  by_status_ok :
      (r : Connection) (s : ConnectionStatus)
      → by_status env r now s ≡ ok c
      → (r ≡ c) × (s ≡ confirmed)
  unfolding by_status
  by_status_ok r s h = ground arith

  gate_requires :
      (r : Connection)
      → find connection_key (strip id) db.connections ≡ some r
      → validate_guide_os_id guide ≡ ok guide
      → require_confirmed_connection_for_offer env id guide company now db ≡ ok c
      → (r ≡ c) × (c.guide_os_id ≡ guide) × (c.company_id ≡ strip company) × (c.status ≡ confirmed)
  unfolding require_confirmed_connection_for_offer require_nonempty
  gate_requires r found valid h = ground (
    arith,
    eq_iff r.guide_os_id guide,
    eq_iff r.company_id (strip company),
    by_status_ok r r.status,
  )

  gate_finds :
      validate_guide_os_id guide ≡ ok guide
      → require_confirmed_connection_for_offer env id guide company now db ≡ ok c
      → find connection_key (strip id) db.connections ≢ none
  unfolding require_confirmed_connection_for_offer require_nonempty
  gate_finds valid h absent = ground arith

  -- For a canonical guide and nonblank identifiers, the gate lets an offer through exactly when
  -- the stored row of that id is the guide's, the company's, and confirmed.
  pub gate_iff :
      validate_guide_os_id guide ≡ ok guide
      → strip id ≢ ""
      → strip company ≢ ""
      → (require_confirmed_connection_for_offer env id guide company now db ≡ ok c) ↔ (
          (find connection_key (strip id) db.connections ≡ some c)
          × (c.guide_os_id ≡ guide)
          × (c.company_id ≡ strip company)
          × (c.status ≡ confirmed))
  gate_iff valid a b = (
    λ h. elim (Option-cases (find connection_key (strip id) db.connections)) [
      | inl absent ↦ absurd (gate_finds valid h absent)
      | inr (r, found) ↦
          let (same, g, k, s) = gate_requires r found valid h in (found ∙ ap some same, g, k, s)
    ],
    λ (found, g, k, s). gate_opens valid a b found g k s,
  )
