-- ===== src/Delivery/Jobs/Tables.antt =====
-- The table of jobs: one row for each primary key, and what picking rows from it gives.
use mathlib.Core.List.{Memᴰ}
use mvp_master.Base.{
  ◌≡◌, refl, Bool, true, none, some, List, [], ◌∷◌, arith, nat_eq, Bool-cases, inl, inr, select, ⊤,
}
use mvp_master.Dict.{get, put, values, get-put}
use mvp_master.Contracts.{Uuid}
use mvp_master.Delivery.Jobs.{RunnerJob, Jobs}

abbrev pub IsTable : Jobs → Type 0
IsTable [] = ⊤
IsTable ((k, row) ∷ d) = (row.id ≡ k) × (get d k ≡ none) × IsTable d

pub put-IsTable : (d : Jobs) (row : RunnerJob) → IsTable d → IsTable (put d row.id row)
unfolding put get
put-IsTable [] row h = (refl, refl, tt)
put-IsTable ((k, x) ∷ d) row h = ground (arith, put-IsTable d row h.2, get-put d row.id row k)

-- A row of the table is found under its key.
pub mem-get :
    (d : Jobs) (row : RunnerJob) → IsTable d → Memᴰ row (values d) → get d row.id ≡ some row
unfolding get
mem-get [] row h m = elim m [ ]
mem-get ((k, x) ∷ d) row h (Memᴰ.head p) = ground arith
mem-get ((k, x) ∷ d) row h (Memᴰ.tail m) = ground (arith, mem-get d row h.2 m)

-- What a list selected by a test holds satisfies the test, and comes from the list.
mem-step :
    {A : Type 0} (p : A → Bool) (x : A) (l : List A) (a : A)
    → p x ≡ true
    → (Memᴰ a (select p l) → Memᴰ a l × (p a ≡ true))
    → Memᴰ a (x ∷ select p l)
    → Memᴰ a (x ∷ l) × (p a ≡ true)
mem-step p x l a q ih (Memᴰ.head e) = (Memᴰ.head e, cc)
mem-step p x l a q ih (Memᴰ.tail m) = (Memᴰ.tail (ih m).0, (ih m).1)

pub mem-select :
    {A : Type 0} (p : A → Bool) (l : List A) (a : A) → Memᴰ a (select p l) → Memᴰ a l × (p a ≡ true)
unfolding select
mem-select p [] a m = elim m [ ]
mem-select p (x ∷ l) a m = elim (Bool-cases (p x)) [
  | inl yes' ↦ mem-step p x l a yes' (mem-select p l a) (rw yes' at m)
  | inr no' ↦ let (there, fits) = mem-select p l a (rw no' at m) in (Memᴰ.tail there, fits)
]

-- A row that is found has its key for its id.
pub get-keyed :
    (d : Jobs) (k : Uuid) (row : RunnerJob) → IsTable d → get d k ≡ some row → row.id ≡ k
unfolding get
get-keyed [] k row h p = cc
get-keyed ((j, x) ∷ d) k row h p = ground (arith, get-keyed d k row h.2)
