-- ===== src/Connection/Replay.antt =====
-- Redelivery: the operator may send an event again, and a second delivery must find the first.
use mathlib.Core.Path.{subst₂}
use guide_os.Prelude.{
  eq_refl, String, eq_iff, text_eq, ◌≡◌, refl, sym, ap, ◌∙◌, ◌⊎◌, inl, inr, Option, some, arith,
}
use guide_os.Errors.{Result, ok}
use guide_os.Platform.{Platform}
use guide_os.Database.{Db, Connection, ConnectionInbox, find, find-cons}
use guide_os.Database.Write.{write, submit, submit_cases}
use guide_os.Connection.Intake.{
  ConnectionInvitationIntake, connection_key, inbox_key, invitation_payload, normalize_invitation,
}
use guide_os.Connection.Invite.{
  answer_row, invitation_plan, invitation_request, invitation_write, receive_connection_invitation,
}
use guide_os.Connection.Effects.{Invites, invited_row, invited_entry, invitation_effect}

module _ (env : Platform) (event n : ConnectionInvitationIntake)
    (normal : normalize_invitation env event ≡ ok n) where
  -- An event whose id stands in the inbox under the same digest is answered with the stored row.
  answers_again :
      (before db : Db) (inbox : ConnectionInbox) (c : Connection)
      → find inbox_key n.event_id before.connection_inbox ≡ some inbox
      → inbox.payload_hash ≡ env.canonical_hash (invitation_payload n)
      → find connection_key n.connection_id before.connections ≡ some c
      → receive_connection_invitation env event before db ≡ (ok c, db)
  unfolding receive_connection_invitation invitation_request invitation_plan submit
  answers_again before db inbox c e same found =
      ground (arith, eq_iff inbox.payload_hash (env.canonical_hash (invitation_payload n)))

module _ (env : Platform) (event : ConnectionInvitationIntake) where
  -- What an invitation that is planned for writing was planned from.
  request_write :
      (before : Db) (h : String) (n : ConnectionInvitationIntake)
      → invitation_request env event before ≡ ok (write (h, n))
      → (normalize_invitation env event ≡ ok n) × (h ≡ env.canonical_hash (invitation_payload n))
  unfolding invitation_request invitation_plan
  request_write before h n planned = ground arith

  -- The answer of the call, from that of its transaction.
  answered_row :
      (r : Result (Option Connection)) (s db' : Db) (c row : Connection) (a : Option Connection)
      → r ≡ ok a
      → a ≡ some row
      → answer_row (r, s) ≡ (ok c, db')
      → (c ≡ row) × (s ≡ db')
  answered_row r s db' c row a e f h = ground arith

  receive_effect :
      (before db db' : Db) (c : Connection)
      → receive_connection_invitation env event before db ≡ (ok c, db')
      → (db' ≡ db)
        ⊎ ((n : ConnectionInvitationIntake) × (normalize_invitation env event ≡ ok n)
            × Invites (env.canonical_hash (invitation_payload n)) n db db'
            × (c ≡ invited_row n))
  unfolding receive_connection_invitation
  receive_effect before db db' c h =
      let s : Result (Option Connection) × Db =
        submit env.busy (invitation_request env event before) (invitation_write env) db in
      elim (submit_cases (invitation_write env) env.busy (invitation_request env event before) db
        s.1 s.0 refl) [
          | inl same ↦ inl (sym (ap (λ (x : Result Connection × Db). x.1) h) ∙ same)
          | inr ((hash, n), a, planned, ran, answered) ↦
              elim (invitation_effect env hash n db s.1 a ran) [
                | inl same ↦ inl (sym (ap (λ (x : Result Connection × Db). x.1) h) ∙ same)
                | inr (w, wrote) ↦
                    let made : (c ≡ invited_row n) × (s.1 ≡ db') =
                      answered_row s.0 s.1 db' c (invited_row n) a answered wrote h in
                    let asked : (normalize_invitation env event ≡ ok n)
                        × (hash ≡ env.canonical_hash (invitation_payload n)) =
                      request_write before hash n planned in
                    inr (n, asked.0, subst₂ (λ x y. Invites x n db y) asked.1 made.1 w, made.0)
              ]
        ]

  -- An invitation that was answered and is delivered again right after, to the database that the
  -- first delivery left, is answered with the same row and writes nothing.
  pub receive_connection_invitation_twice :
      (db db' : Db) (c : Connection)
      → receive_connection_invitation env event db db ≡ (ok c, db')
      → receive_connection_invitation env event db' db' ≡ (ok c, db')
  receive_connection_invitation_twice db db' c h = elim (receive_effect db db db' c h) [
    | inl same ↦ rw same (rw same at h)
    | inr (n, normal, w, made) ↦
        answers_again env event n normal db' db'
          (invited_entry (env.canonical_hash (invitation_payload n)) n) c
          (rw w.frame (rw (find-cons, eq_refl))) refl (rw (w.frame, made) (rw (find-cons, eq_refl)))
  ]
