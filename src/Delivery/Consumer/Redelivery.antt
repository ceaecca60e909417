-- ===== src/Delivery/Consumer/Redelivery.antt =====
-- Events that come more than once (entrypoints/events.py of the delivery service).
use mvp_master.Base.{
  ap, ◌∙◌, ◌≡◌, ◌≢◌, refl, Bool, true, false, some, is_some, List, [], ◌∷◌, ◌++◌, ◌==◌, nat_eq,
  if◌then◌else◌, ⊤, arith, Each, Option-cases, Bool-cases, inl, inr, eq_refl, ◌⊎◌,
}
use mvp_master.Exec.{Exec, Result, ok, err, ◌>>=◌, bind-ok}
use mvp_master.Dict.{get, put, get-put}
use mvp_master.Delivery.Service.{ReadyWorkItem}
use mvp_master.Delivery.Consumer.{
  Event, InboxRow, Database, Tables, handle, record_inbox, process_event, consume, handled,
}

-- The events of the first list stand in the second in the same order.
abbrev pub Sublist : List Event → List Event → Type 0
Sublist [] l = Unit
Sublist (e ∷ k) [] = ⊥
Sublist (e ∷ k) (x ∷ l) = (e ≡ x) × Sublist k l ⊎ Sublist (e ∷ k) l

Sublist-skip : (k : List Event) (e : Event) (l : List Event) → Sublist k l → Sublist k (e ∷ l)
Sublist-skip [] e l h = tt
Sublist-skip (x ∷ k) e l h = inr h

-- Whether the inbox has an event's id.
abbrev pub is_known : {S : Type 0} → Database S → Event → Bool
is_known db e = is_some (get db.inbox e.id)

-- No two events have one id, and none has been seen.
abbrev pub AllNew : {S : Type 0} → Database S → List Event → Type 0
AllNew db [] = Unit
AllNew db (e ∷ l) = (is_known db e ≡ false) × Each (λ x. e.id ≢ x.id) l × AllNew db l

module _ {E S : Type 0} (conflict invalid : E) (accept : ReadyWorkItem → Exec E S ⊤) where
  -- The events without an inbox, one after the other; the first that raises ends it.
  abbrev pub replay : List Event → Exec E (Tables S) ⊤
  replay [] t = (ok tt, t)
  replay (e ∷ l) t = (handle conflict invalid accept e >>= λ _. replay l) t

  -- The messages had the effect of some of them, in their order, each handled once with success,
  -- and those are in the inbox.
  pub record Once (l : List Event) (before after : Database S) : Type 0 where
    pub taken : List Event
    pub part : Sublist taken l
    pub new : AllNew before taken
    pub replayed : replay taken before.tables ≡ (ok tt, after.tables)
    pub recorded : Each (λ e. is_known after e ≡ true) taken
    pub remembered : (e : Event) → is_known before e ≡ true → is_known after e ≡ true

  -- The inbox's row for an event
  abbrev row_of : Event → InboxRow
  row_of e = record { organization_id = e.organization_id; event_type = e.type_name }

  abbrev with_row : Event → Database S → Database S
  with_row e db = record db { inbox = put db.inbox e.id (row_of e) }

  abbrev processed : Event → Database S → Database S
  processed e db = (process_event conflict invalid accept e db).1

  handled-cases :
      (before recorded : Database S) (out : Result E ⊤ × Tables S)
      → let (r, after) = handled conflict invalid accept before recorded out in
        (after ≡ before)
        ⊎ ((r ≡ ok tt) × (out ≡ (ok tt, after.tables)) × (after.inbox ≡ recorded.inbox))
  handled-cases before recorded (ok _, t) = inr (refl, refl, refl)
  handled-cases before recorded (err e, t) = inl refl

  handled-inbox :
      (before recorded : Database S) (out : Result E ⊤ × Tables S)
      → (handled conflict invalid accept before recorded out).0 ≡ ok tt
      → (handled conflict invalid accept before recorded out).1.inbox ≡ recorded.inbox
  handled-inbox before recorded (ok _, t) done = refl
  handled-inbox before recorded (err e, t) done = absurd (cc)

  -- Processing one event: it was known or raised, and nothing changed; or it was new and handled.
  process_event-cases :
      (e : Event) (db : Database S)
      → (processed e db ≡ db)
        ⊎ ((is_known db e ≡ false)
            × (handle conflict invalid accept e db.tables ≡ (ok tt, (processed e db).tables))
            × ((processed e db).inbox ≡ put db.inbox e.id (row_of e)))
  unfolding process_event record_inbox
  process_event-cases e db = elim (Option-cases (get db.inbox e.id)) [
    | inr (row, found) ↦ elim (Bool-cases (row.organization_id == e.organization_id)) [
      | inl own ↦ inl (rw (found, own, processed) refl)
      | inr foreign ↦ inl (rw (found, foreign, processed) refl)
    ]
    | inl new ↦
        elim (handled-cases db (with_row e db) (handle conflict invalid accept e db.tables)) [
          | inl same ↦ inl (rw (new, processed) same)
          | inr (_, done, inbox) ↦
              inr (rw new refl, rw (new, processed) done, rw (new, processed) inbox)
        ]
  ]

  known-processed :
      (e x : Event) (db : Database S) → is_known db x ≡ true → is_known (processed e db) x ≡ true
  known-processed e x db h = elim (process_event-cases e db) [
    | inl same ↦ rw same h
    | inr (_, _, inbox) ↦
        rw inbox (ground (arith, get-put db.inbox e.id (row_of e) x.id, nat_eq.beq_iff e.id x.id))
  ]

  -- New for the inbox after an event, and so before; and other than the event.
  new-processed :
      (e : Event) (db : Database S) (l : List Event)
      → (processed e db).inbox ≡ put db.inbox e.id (row_of e)
      → AllNew (processed e db) l
      → Each (λ x. e.id ≢ x.id) l × AllNew db l
  new-processed e db [] inbox h = (tt, tt)
  new-processed e db (x ∷ l) inbox (new, apart, rest) =
      let (others, before) = new-processed e db l inbox rest in
      let seen : get (processed e db).inbox x.id
          ≡ (if e.id == x.id then some (row_of e) else get db.inbox x.id) =
        ap (λ i. get i x.id) inbox ∙ get-put db.inbox e.id (row_of e) x.id in
      (
        (ground (arith, seen, new, nat_eq.beq_iff e.id x.id), others),
        (ground (arith, seen, new), apart, before),
      )

  self-known :
      (e : Event) (db : Database S)
      → (processed e db).inbox ≡ put db.inbox e.id (row_of e)
      → is_known (processed e db) e ≡ true
  self-known e db inbox =
      rw inbox (ground (arith, get-put db.inbox e.id (row_of e) e.id, nat_eq.beq_iff e.id e.id))

  consume-known :
      (l : List Event) (db : Database S) (x : Event)
      → is_known db x ≡ true
      → is_known (consume conflict invalid accept l db) x ≡ true
  unfolding consume
  consume-known [] db x h = h
  consume-known (e ∷ l) db x h = consume-known l (processed e db) x (known-processed e x db h)

  -- Whatever events come, in any order, any of them more than once or with failures: the memberships
  -- and the other tables are as after handling some of these events once each, in the order in which
  -- they came and without an inbox, none of them known before; and those are known afterwards.
  pub consume-Once :
      (l : List Event) (db : Database S) → Once l db (consume conflict invalid accept l db)
  unfolding consume
  consume-Once [] db = record {
    taken = [];
    part = tt;
    new = tt;
    replayed = refl;
    recorded = tt;
    remembered = λ e h. h;
  }
  consume-Once (e ∷ l) db = elim (process_event-cases e db) [
    | inl same ↦
        let later = consume-Once l db in
        rw same (record {
          taken = later.taken;
          part = Sublist-skip later.taken e l later.part;
          new = later.new;
          replayed = later.replayed;
          recorded = later.recorded;
          remembered = later.remembered;
        })
    | inr (new, done, inbox) ↦
        let later = consume-Once l (processed e db) in
        let (apart, others) = new-processed e db later.taken inbox later.new in
        record {
          taken = e ∷ later.taken;
          part = inl (refl, later.part);
          new = (new, apart, others);
          replayed =
              bind-ok (handle conflict invalid accept e) (λ _. replay later.taken) db.tables tt
                (processed e db).tables done
              ∙ later.replayed;
          recorded = (consume-known l (processed e db) e (self-known e db inbox), later.recorded);
          remembered = λ x h. later.remembered x (known-processed e x db h);
        }
  ]

  -- The inbox has a row for the event that its organization sees.
  abbrev IsOwn : Event → Database S → Type 0
  IsOwn e db =
      (row : InboxRow) × (get db.inbox e.id ≡ some row)
      × ((row.organization_id == e.organization_id) ≡ true)

  IsOwn-processed : (e x : Event) (db : Database S) → IsOwn e db → IsOwn e (processed x db)
  IsOwn-processed e x db (row, found, own) = elim (process_event-cases x db) [
    | inl same ↦ rw same (row, found, own)
    | inr (new, _, inbox) ↦ (
      row,
      rw inbox (ground (arith, get-put db.inbox x.id (row_of x) e.id, nat_eq.beq_iff x.id e.id)),
      own,
    )
  ]

  -- A session that did not raise leaves such a row.
  processed-IsOwn :
      (e : Event) (db : Database S)
      → (process_event conflict invalid accept e db).0 ≡ ok tt
      → IsOwn e (processed e db)
  unfolding process_event record_inbox
  processed-IsOwn e db done = elim (Option-cases (get db.inbox e.id)) [
    | inr (row, found) ↦ elim (Bool-cases (row.organization_id == e.organization_id)) [
      | inl own ↦ rw (found, own, processed) (row, found, own)
      | inr foreign ↦ absurd (cc (rw (found, foreign) at done))
    ]
    | inl new ↦
        let inbox =
          handled-inbox db (with_row e db) (handle conflict invalid accept e db.tables)
            (rw new at done) in
        rw (new, processed)
          (
            row_of e,
            rw inbox
                (ground (arith, get-put db.inbox e.id (row_of e) e.id, nat_eq.beq_iff e.id e.id)),
            eq_refl e.organization_id,
          )
  ]

  own-unchanged : (e : Event) (db : Database S) → IsOwn e db → processed e db ≡ db
  unfolding process_event record_inbox
  own-unchanged e db (row, found, own) = rw (found, own, processed) refl

  consume-own :
      (e : Event) (l k : List Event) (db : Database S)
      → IsOwn e db
      → consume conflict invalid accept (l ++ e ∷ k) db
        ≡ consume conflict invalid accept (l ++ k) db
  unfolding consume
  consume-own e [] k db own = ap (consume conflict invalid accept k) (own-unchanged e db own)
  consume-own e (x ∷ l) k db own = consume-own e l k (processed x db) (IsOwn-processed e x db own)

  -- After an event was processed without an error, it may come again at any time: the database is as
  -- if it had not.
  pub redelivery_harmless :
      (e : Event) (l k : List Event) (db : Database S)
      → (process_event conflict invalid accept e db).0 ≡ ok tt
      → consume conflict invalid accept (e ∷ l ++ e ∷ k) db
        ≡ consume conflict invalid accept (e ∷ l ++ k) db
  unfolding consume
  redelivery_harmless e l k db done = consume-own e l k (processed e db) (processed-IsOwn e db done)
