-- ===== src/Session/Memory.antt =====
-- A session in memory, which meets every law: a list of rows, of which the first of a key counts.
use mathlib.Core.List.{Memᴰ}
use salesforce_master_servic.Base.{
  ◌≡◌, refl, sym, subst, inl, inr, false, Option, none, some, List, [], ◌∷◌, arith, if◌then◌else◌,
  nat_eq, string_eq, ◌==◌, Bool-cases, is_some, Memᴰ-cons, String, eq_iff, eq_refl,
}
use salesforce_master_servic.Job.{Job}
use salesforce_master_servic.Session.{Session, IsLawful}

find_row : List Job → String → Option Job
find_row [] k = none
find_row (j ∷ js) k = if j.scan_id == k then some j else find_row js k

without : String → List Job → List Job
without k [] = []
without k (j ∷ js) = let rest = without k js in if j.scan_id == k then rest else j ∷ rest

add_row : List Job → Job → Option (List Job)
add_row s j = if is_some (find_row s j.scan_id) then none else some (j ∷ s)

distinct : List Job → List Job
distinct [] = []
distinct (j ∷ js) = j ∷ without j.scan_id (distinct js)

unfoldable pub memory : Session
unfolding find_row without add_row distinct
memory = record {
  State = List Job;
  get = find_row;
  add = add_row;
  save = λ s j. j ∷ s;
  delete = λ s k. without k s;
  rows = distinct;
}

find_row-key : (s : List Job) (k : String) (j : Job) → find_row s k ≡ some j → j.scan_id ≡ k
unfolding find_row
find_row-key [] k j h = cc
find_row-key (i ∷ s) k j h = ground (arith, eq_iff i.scan_id k, find_row-key s k j)

find_row-without :
    (i k : String) (s : List Job)
    → find_row (without i s) k ≡ (if i == k then none else find_row s k)
unfolding find_row without
find_row-without i k [] = ground arith
find_row-without i k (j ∷ s) =
    ground (arith, eq_iff j.scan_id i, eq_iff j.scan_id k, eq_iff i k, find_row-without i k s)

mem-without :
    (k : String) (s : List Job) (j : Job)
    → Memᴰ j s
    → (j.scan_id == k) ≡ false
    → Memᴰ j (without k s)
unfolding without
mem-without k [] j m h = elim m [ ]
mem-without k (i ∷ s) j (Memᴰ.head e) h = rw (← e) (rw h (Memᴰ.head refl))
mem-without k (i ∷ s) j (Memᴰ.tail m) h = elim (Bool-cases (i.scan_id == k)) [
  | inl e ↦ rw e (mem-without k s j m h)
  | inr e ↦ rw e (Memᴰ.tail (mem-without k s j m h))
]

of_mem-without :
    (k : String) (s : List Job) (j : Job)
    → Memᴰ j (without k s)
    → Memᴰ j s × ((j.scan_id == k) ≡ false)
unfolding without
of_mem-without k [] j m = elim m [ ]
of_mem-without k (i ∷ s) j m = elim (Bool-cases (i.scan_id == k)) [
  | inl e ↦ let h = of_mem-without k s j (rw e at m) in (Memᴰ.tail h.0, h.1)
  | inr e ↦
      let m' : Memᴰ j (i ∷ without k s) = rw e at m in
      elim (Memᴰ-cons m') [
        | inl p ↦ (Memᴰ.head p, subst (λ (x : Job). (x.scan_id == k) ≡ false) (sym p) e)
        | inr r ↦ let h = of_mem-without k s j r in (Memᴰ.tail h.0, h.1)
      ]
]

mem-distinct : (s : List Job) (k : String) (j : Job) → find_row s k ≡ some j → Memᴰ j (distinct s)
unfolding find_row distinct
mem-distinct [] k j h = cc
mem-distinct (i ∷ s) k j h = elim (Bool-cases (i.scan_id == k)) [
  | inl e ↦ Memᴰ.head (ground (arith))
  | inr e ↦
      let h' : find_row s k ≡ some j = rw e at h in
      Memᴰ.tail (
        mem-without i.scan_id (distinct s) j (mem-distinct s k j h')
          (ground (arith, eq_iff j.scan_id i.scan_id, eq_iff i.scan_id k, find_row-key s k j h')))
]

find_row_of_mem-distinct :
    (s : List Job) (j : Job) → Memᴰ j (distinct s) → find_row s j.scan_id ≡ some j
unfolding find_row distinct
find_row_of_mem-distinct [] j m = elim m [ ]
find_row_of_mem-distinct (i ∷ s) j m = elim (Memᴰ-cons m) [
  | inl e ↦ rw (← e) (rw eq_refl)
  | inr r ↦
      let h = of_mem-without i.scan_id (distinct s) j r in
      ground (
        arith,
        eq_iff j.scan_id i.scan_id,
        eq_iff i.scan_id j.scan_id,
        h.1,
        find_row_of_mem-distinct s j h.0,
      )
]

add_row_new :
    (s : List Job) (j : Job)
    → find_row s j.scan_id ≡ none
    → (t : List Job) × (add_row s j ≡ some t)
      × ((k : String) → find_row t k ≡ (if j.scan_id == k then some j else find_row s k))
unfolding find_row add_row
add_row_new s j h = (j ∷ s, rw h, λ k. refl)

pub memory-IsLawful : IsLawful memory
unfolding memory find_row add_row
memory-IsLawful = record {
  key = find_row-key;
  add_taken = λ s j old h. rw h;
  add_new = add_row_new;
  get-save = λ s j old k h. refl;
  get-delete = λ s i k. find_row-without i k s;
  mem-rows = mem-distinct;
  get_of_mem-rows = find_row_of_mem-distinct;
}
