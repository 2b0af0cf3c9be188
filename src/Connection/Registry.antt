-- ===== src/Connection/Registry.antt =====
-- The register of pending calls: distinct ids, each issued, with futures of their own that are not
-- done. Every change that the pieces make to it keeps this.
use Prim.Native.String.{count}
use macpony.Prelude.{
  ℕ, ◌+◌, ◌≤◌, String, ◌≡◌, refl, sym, ◌∙◌, ◌≢◌, inl, inr, none, some, List, [], ◌∷◌, ◌++◌, arith,
  All, All-append, All-map, length, get_elem?, get_elem?-append, get_elem?-append_end,
  get_elem?-lt-length, get_elem?-set_self, get_elem?-set_ne, str_eq, Bool-cases, Option-cases,
}
use macpony.Prelude.Dict.{
  Dict, lookup, insert, erase, IsDict, lookup-erase_ne, insert-append, insert-IsDict, erase-IsDict,
  erase-All, lookup-All,
}
use mathlib.Core.Path.{subst}
use macpony.Connection.Ids.{request_id, request_id_inj}
use macpony.Connection.{Future, waiting, settle}

-- The id was made by `_next_request_id` when the counter was at most `c`.
pub data IsIssued (c : ℕ) (id : String) : Type 0 where
  issued :
      (n : ℕ) (random : String)
      → n ≤ c
      → count random ≡ 8
      → id ≡ request_id n random
      → IsIssued c id

abbrev pub IsFresh : ℕ → Dict ℕ → Type 0
IsFresh f = All (λ e. e.1 ≢ f)

abbrev pub IsDistinct : Dict ℕ → Type 0
IsDistinct [] = Unit {0}
IsDistinct ((id, f) ∷ d) = IsFresh f d × IsDistinct d

pub record IsRegister (pending : Dict ℕ) (futures : List Future) (c : ℕ) : Type 0 where
  pub keys : IsDict pending
  pub waits : All (λ e. get_elem? futures e.1 ≡ some waiting) pending
  pub distinct : IsDistinct pending
  pub ids : All (λ e. IsIssued c e.0) pending

IsIssued-next : (c : ℕ) (id : String) → IsIssued c id → IsIssued (c + 1) id
IsIssued-next c id (issued n random h k e) = issued n random (omega arith) k e

-- The next id was not issued before.
IsIssued-fresh :
    (c : ℕ) (random : String) → count random ≡ 8 → ¬ IsIssued c (request_id (c + 1) random)
IsIssued-fresh c random k (issued n r h k' e) =
    absurd (omega (arith, request_id_inj (c + 1) n random r (k ∙ sym k') e))

pub lookup-fresh :
    (c : ℕ) (random : String) (d : Dict ℕ)
    → count random ≡ 8
    → All (λ e. IsIssued c e.0) d
    → lookup (request_id (c + 1) random) d ≡ none
lookup-fresh c random d k h = elim (Option-cases (lookup (request_id (c + 1) random) d)) [
  | inl e ↦ e
  | inr (f, e) ↦ absurd (
      IsIssued-fresh c random k
        (lookup-All (λ id g. IsIssued c id) (request_id (c + 1) random) f d h e))
]

IsDistinct-append :
    (d : Dict ℕ) (id : String) (f : ℕ) → IsDistinct d → IsFresh f d → IsDistinct (d ++ (id, f) ∷ [])
IsDistinct-append [] id f h k = (tt, tt)
IsDistinct-append ((i, g) ∷ d) id f h k =
    (All-append _ d ((id, f) ∷ []) h.0 (λ e. k.0 (sym e), tt), IsDistinct-append d id f h.1 k.1)

-- The future and the id of a new call are not in the register.
pub insert-IsRegister :
    (pending : Dict ℕ) (futures : List Future) (c : ℕ) (random : String)
    → count random ≡ 8
    → IsRegister pending futures c
    → IsRegister
        (insert (request_id (c + 1) random) (length futures) pending)
        (futures ++ waiting ∷ [])
        (c + 1)
insert-IsRegister pending futures c random k h =
    let id = request_id (c + 1) random in
    let new = lookup-fresh c random pending k h.ids in
    let waits =
      All-map _ (λ e. get_elem? (futures ++ waiting ∷ []) e.1 ≡ some waiting)
        (λ e q. get_elem?-append futures (waiting ∷ []) e.1 waiting q) pending h.waits in
    let fresh : IsFresh (length futures) pending =
      All-map _ (λ e. e.1 ≢ length futures)
        (λ e q r. absurd (omega (arith, get_elem?-lt-length futures e.1 waiting q, r))) pending
        h.waits in
    let ids = All-map _ (λ e. IsIssued (c + 1) e.0) (λ e q. IsIssued-next c e.0 q) pending h.ids in
    record {
      keys = insert-IsDict id (length futures) pending h.keys;
      waits =
          rw (insert-append id (length futures) pending new)
            (All-append _ pending _ waits (get_elem?-append_end futures waiting, tt));
      distinct =
          rw (insert-append id (length futures) pending new)
            (IsDistinct-append pending id (length futures) h.distinct fresh);
      ids =
          rw (insert-append id (length futures) pending new)
            (All-append _ pending _ ids (issued (c + 1) random (omega arith) k refl, tt));
    }

erase-IsDistinct : (id : String) (d : Dict ℕ) → IsDistinct d → IsDistinct (erase id d)
unfolding erase
erase-IsDistinct id [] h = tt
erase-IsDistinct id ((i, g) ∷ d) h = elim (Bool-cases (str_eq i id)) [
  | inl q ↦ rw q h.1
  | inr q ↦ rw q (erase-All (λ e. e.1 ≢ g) id d h.0, erase-IsDistinct id d h.1)
]

pub erase-IsRegister :
    (pending : Dict ℕ) (futures : List Future) (c : ℕ) (id : String)
    → IsRegister pending futures c
    → IsRegister (erase id pending) futures c
erase-IsRegister pending futures c id h = record {
  keys = erase-IsDict id pending h.keys;
  waits = erase-All _ id pending h.waits;
  distinct = erase-IsDistinct id pending h.distinct;
  ids = erase-All _ id pending h.ids;
}

-- Once an id is taken out, its future is in the register no more.
erase-IsFresh :
    (id : String) (f : ℕ) (d : Dict ℕ)
    → lookup id d ≡ some f
    → IsDistinct d
    → IsFresh f (erase id d)
unfolding erase lookup
erase-IsFresh id f [] e h = cc
erase-IsFresh id f ((i, g) ∷ d) e h = elim (Bool-cases (str_eq i id)) [
  | inl q ↦ let same : g ≡ f = ground arith in rw q (subst (λ n. IsFresh n d) same h.0)
  | inr q ↦
      let found : lookup id d ≡ some f = rw q at e in
      rw q (λ r. lookup-All (λ j n. n ≢ g) id f d h.0 found (sym r), erase-IsFresh id f d found h.1)
]

-- Settling a future leaves the others as they are.
pub get_elem?-settle_ne :
    (f g : ℕ) (v : Future) (futures : List Future)
    → f ≢ g
    → get_elem? (settle f v futures) g ≡ get_elem? futures g
unfolding settle
get_elem?-settle_ne f g v futures h = ground (arith, get_elem?-set_ne futures f g v h)

pub get_elem?-settle_self :
    (f : ℕ) (v : Future) (futures : List Future)
    → get_elem? futures f ≡ some waiting
    → get_elem? (settle f v futures) f ≡ some v
unfolding settle
get_elem?-settle_self f v futures h = ground (arith, get_elem?-set_self futures f waiting v h)

pub settle-waits :
    (f : ℕ) (v : Future) (futures : List Future) (d : Dict ℕ)
    → IsFresh f d
    → All (λ e. get_elem? futures e.1 ≡ some waiting) d
    → All (λ e. get_elem? (settle f v futures) e.1 ≡ some waiting) d
settle-waits f v futures [] k h = tt
settle-waits f v futures ((i, g) ∷ d) k h =
    (get_elem?-settle_ne f g v futures (λ e. k.0 (sym e)) ∙ h.0, settle-waits f v futures d k.1 h.1)

pub settle-IsRegister :
    (pending : Dict ℕ) (futures : List Future) (c : ℕ) (id : String) (f : ℕ) (v : Future)
    → lookup id pending ≡ some f
    → IsRegister pending futures c
    → IsRegister (erase id pending) (settle f v futures) c
settle-IsRegister pending futures c id f v e h =
    let h' = erase-IsRegister pending futures c id h in
    record {
      keys = h'.keys;
      waits =
          settle-waits f v futures (erase id pending) (erase-IsFresh id f pending e h.distinct)
            h'.waits;
      distinct = h'.distinct;
      ids = h'.ids;
    }

-- Two ids never share a future.
pub IsDistinct-lookup :
    (i j : String) (f g : ℕ) (d : Dict ℕ)
    → IsDistinct d
    → i ≢ j
    → lookup i d ≡ some f
    → lookup j d ≡ some g
    → f ≢ g
IsDistinct-lookup i j f g d h ne ei ej =
    lookup-All (λ k n. n ≢ g) i f (erase j d) (erase-IsFresh j g d ej h)
      (lookup-erase_ne j i d ne ∙ ei)
