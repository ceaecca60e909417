-- ===== src/Delivery/Consumer.antt =====
-- entrypoints/events.py of the delivery service, with the inbox and the memberships of
-- adapters/postgres.py. The other tables, and `accept_ready_work_item` on them, are parameters.
pub mod Redelivery
use mvp_master.Base.{
  String, Bool, true, false, not, ◌&&◌, Option, none, some, List, [], ◌∷◌, ◌==◌, nat_eq, string_eq,
  pair_eq, if◌then◌else◌, ⊤,
}
use mvp_master.Exec.{Exec, Result, ok, err, pure, raise, modify, ◌>>=◌, ◌>>◌}
use mvp_master.Dict.{Dict, get, put}
use mvp_master.Contracts.{Uuid}
use mvp_master.Delivery.Service.{ReadyWorkItem}

-- An event's `type` and `data`: the two types that are handled, whose data may be other than it
-- should be, and every other type.
pub data Contents : Type 0 where
  membership_changed : (subject role : String) (active : Bool) → Contents
  work_item_ready : ReadyWorkItem → Contents
  malformed other : Contents

-- The fields of `EventEnvelope` that are read.
pub record Event : Type 0 where
  pub id : Uuid
  pub organization_id : Uuid
  pub type_name : String
  pub correlation_id : Uuid
  pub contents : Contents

pub record InboxRow : Type 0 where
  pub organization_id : Uuid
  pub event_type : String

pub record MembershipProjectionRow : Type 0 where
  pub role : String
  pub active : Bool

abbrev pub Memberships : Type 0
Memberships = Dict (Uuid × String) MembershipProjectionRow

-- What the handling of an event changes: the memberships, and the other tables.
abbrev pub Tables : Type 0 → Type 0
Tables S = Memberships × S

pub record Database (S : Type 0) : Type 0 where
  pub inbox : Dict Uuid InboxRow
  pub tables : Tables S

abbrev role_of : Option MembershipProjectionRow → Option String
role_of none = none
role_of (some row) = if row.active then some row.role else none

unfoldable pub role_for : Memberships → Uuid → String → Option String
role_for m o subject = role_of (get m (o, subject))

-- A row that is there gets the role and the flag, and otherwise one with them is added.
unfoldable pub upsert_membership : Uuid → String → String → Bool → Memberships → Memberships
upsert_membership o subject role active m =
    put m (o, subject) (record { role = role; active = active })

-- `errors`: what a second row with one primary key and what data of the wrong form raise.
module _ {E S : Type 0} (conflict invalid : E) (accept : ReadyWorkItem → Exec E S ⊤) where
  -- Row level security hides another organization's row, but not from the primary key.
  abbrev found_in_inbox : Option InboxRow → Event → Exec E (Database S) Bool
  found_in_inbox none e db = (
    ok true,
    record db {
      inbox =
          put db.inbox e.id
            (record { organization_id = e.organization_id; event_type = e.type_name });
    },
  )
  found_in_inbox (some row) e db =
      (if row.organization_id == e.organization_id then ok false else err conflict, db)

  unfoldable pub record_inbox : Event → Exec E (Database S) Bool
  record_inbox e db = found_in_inbox (get db.inbox e.id) e db

  abbrev handle_contents : Contents → Event → Exec E (Tables S) ⊤
  handle_contents (membership_changed subject role active) e (m, s) =
      (ok tt, (upsert_membership e.organization_id subject role active m, s))
  handle_contents (work_item_ready w) e (m, s) =
      let (r, s') =
        accept (record w { organization_id = e.organization_id; correlation_id = e.correlation_id })
          s in
      (r, (m, s'))
  handle_contents malformed e t = (err invalid, t)
  handle_contents other e t = (ok tt, t)

  -- The branches on `event.type`
  unfoldable pub handle : Event → Exec E (Tables S) ⊤
  unfolding upsert_membership
  handle e = handle_contents e.contents e

  -- What the session leaves: `commit` after the handling, `rollback` for an event that is in the
  -- inbox, and nothing written where something raised.
  abbrev pub handled : Database S → Database S → Result E ⊤ × Tables S → Result E ⊤ × Database S
  handled before recorded (ok _, t) = (ok tt, record recorded { tables = t })
  handled before recorded (err e, t) = (err e, before)

  abbrev inbox_answered : Event → Database S → Result E Bool × Database S → Result E ⊤ × Database S
  inbox_answered e before (err x, recorded) = (err x, before)
  inbox_answered e before (ok false, recorded) = (ok tt, before)
  inbox_answered e before (ok true, recorded) = handled before recorded (handle e recorded.tables)

  unfoldable pub process_event : Event → Exec E (Database S) ⊤
  unfolding record_inbox handle
  process_event e db = inbox_answered e db (record_inbox e db)

  -- The messages in the order in which they come. One whose handling raised was not acknowledged, and
  -- may come again.
  unfoldable pub consume : List Event → Database S → Database S
  unfolding process_event
  consume [] db = db
  consume (e ∷ l) db = consume l (process_event e db).1
