-- ===== src/Workflow/Diary.antt =====
-- The guide's own calls on the calendar, between the calls of the services and those on published
-- versions.
use guide_os.Prelude.{ℕ, text_eq, number_eq, List, [], ◌∷◌}
use guide_os.Platform.{Platform}
use guide_os.Database.{Db, find}
use guide_os.Assignment.Store.{assignment_key}
use guide_os.Assignment.Projection.{Projected-tours}
use guide_os.Entry.Protects.{IsQuiet, Protects}
use guide_os.Entry.Calls.{EntryCall, keep_diary, Spares}
use guide_os.Entry.Spared.{keep_diary-Spares}
use guide_os.Workflow.Journey.{Step, proceed, IsConsistent, proceed-IsConsistent}
use guide_os.Workflow.Quiet.{proceed-IsQuiet}

-- A call of the services, or one of the guide with this user number.
pub data Activity : Type 0 where
  service : Step → Activity
  diary : ℕ → EntryCall → Activity

abbrev pub act : Platform → Activity → Db → Db → Db
act env (service step) before db = proceed env step before db
act env (diary user_id c) before db = keep_diary env user_id c before db

unfoldable pub live : List (Platform × Activity × Db) → Db → Db
live [] db = db
live ((env, activity, before) ∷ activities) db = live activities (act env activity before db)

-- Calls of guides alone.
unfoldable pub diary_only : List (Platform × (ℕ × EntryCall) × Db) → Db → Db
diary_only [] db = db
diary_only ((env, (user_id, c), before) ∷ calls) db =
    diary_only calls (keep_diary env user_id c before db)

-- Tables that agree, numbered versions, and no allowance for the triggers.
pub record IsGuarded (db : Db) : Type 0 where
  pub consistent : IsConsistent db
  pub quiet : IsQuiet db

Spares-IsGuarded : (db db' : Db) → Spares db db' → IsGuarded db → IsGuarded db'
Spares-IsGuarded db db' s g =
    let agreed = g.consistent.agreed in
    rw s.frame (record {
      consistent = record {
        agreed = record {
          connections = record {
            agrees = agreed.connections.agrees;
            reported = agreed.connections.reported;
          };
          assignments = record {
            agrees = agreed.assignments.agrees;
            reported = agreed.assignments.reported;
          };
          projected = record {
            rows = λ k.
                Projected-tours k (find assignment_key k db.assignments) db.tours s.tours
                  (λ id t found own protected. s.protects id t found protected)
                  (agreed.projected.rows k);
            numbered = s.numbered;
          };
          sponsored = agreed.sponsored;
        };
        versioned = g.consistent.versioned;
      };
      quiet = record {
        metadata = g.quiet.metadata;
        occupancy = g.quiet.occupancy;
        release = g.quiet.release;
      };
    })

act-IsGuarded :
    (env : Platform) (activity : Activity) (before db : Db)
    → IsGuarded db
    → IsGuarded (act env activity before db)
act-IsGuarded env (service step) before db g = record {
  consistent = proceed-IsConsistent env step before db g.consistent;
  quiet = proceed-IsQuiet env step before db g.quiet;
}
act-IsGuarded env (diary user_id c) before db g =
    Spares-IsGuarded db _
      (keep_diary-Spares env user_id before db g.quiet g.consistent.agreed.projected.numbered c) g

-- From tables that agree, with numbered versions and no allowance left for the triggers, any
-- interleaving of the calls of both services, those on published versions, and the creations,
-- copies, edits and deletions of entries by any guides leads to such tables again, with any
-- clocks, contention and stale first reads.
pub live-IsGuarded :
    (activities : List (Platform × Activity × Db)) (db : Db)
    → IsGuarded db
    → IsGuarded (live activities db)
unfolding live
live-IsGuarded [] db g = g
live-IsGuarded ((env, activity, before) ∷ activities) db g =
    live-IsGuarded activities (act env activity before db) (act-IsGuarded env activity before db g)

-- From tables that agree, with numbered versions and no allowance left for the triggers, no
-- sequence of creations, copies, edits and deletions of entries by any guides changes or removes a
-- protected entry, whatever each call read first.
pub diary_only-Protects :
    (calls : List (Platform × (ℕ × EntryCall) × Db)) (db : Db)
    → IsGuarded db
    → Protects db.tours (diary_only calls db).tours
unfolding diary_only
diary_only-Protects [] db g id t found protected = found
diary_only-Protects ((env, (user_id, c), before) ∷ calls) db g id t found protected =
    let s =
      keep_diary-Spares env user_id before db g.quiet g.consistent.agreed.projected.numbered c in
    diary_only-Protects calls (keep_diary env user_id c before db) (Spares-IsGuarded db _ s g) id t
      (rw s.frame (s.protects id t found protected)) protected
