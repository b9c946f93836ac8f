-- ===== src/KuIpc/Alike.antt =====
-- Drivers whose queues have the same contents, and what their calls find there.
use embedded_system_software.Base.{
  ℕ, zero, suc, ◌≡◌, refl, sym, ap, subst, ◌∙◌, inl, inr, false, Option, none, some, List, [], ◌∷◌,
  ◌++◌, arith, ◌==◌, if◌then◌else◌, Bool-cases, get_elem?, set, ℤ, pos, negsuc, at, put_at,
}
use mathlib.Core.Option
use mathlib.Core.Option.{some-injective}
use embedded_system_software.KuIpc.{
  Msgbuf, MsgConfig, Driver, type_of, Found, absent, too_long, taken, look_for,
}
use embedded_system_software.KuIpc.ByType.{
  of_type, of_type-append, in_box, left_by, first_of, look_for-first, look_for-Keeps,
}
use embedded_system_software.KuIpc.Mailboxes.{SameBoxes}

-- As many queues, each with the same contents.
abbrev pub AllSame : List (List Msgbuf) → List (List Msgbuf) → Type 0
AllSame [] [] = Unit {0}
AllSame [] (p ∷ ps) = ⊥
AllSame (q ∷ qs) [] = ⊥
AllSame (q ∷ qs) (p ∷ ps) = SameBoxes q p × AllSame qs ps

pub record Alike (s t : Driver) : Type 0 where
  pub contents : AllSame s.queues t.queues
  pub counters : s.counters ≡ t.counters
  pub heap : s.heap ≡ t.heap

-- Nothing at both, or queues with the same contents.
abbrev pub BothSame : Option (List Msgbuf) → Option (List Msgbuf) → Type 0
BothSame none none = Unit {0}
BothSame none (some p) = ⊥
BothSame (some q) none = ⊥
BothSame (some q) (some p) = SameBoxes q p

get_elem?-BothSame :
    (qs ps : List (List Msgbuf)) (i : ℕ)
    → AllSame qs ps
    → BothSame (get_elem? qs i) (get_elem? ps i)
get_elem?-BothSame [] [] i h = tt
get_elem?-BothSame [] (p ∷ ps) i h = absurd h
get_elem?-BothSame (q ∷ qs) [] i h = absurd h
get_elem?-BothSame (q ∷ qs) (p ∷ ps) zero h = h.0
get_elem?-BothSame (q ∷ qs) (p ∷ ps) (suc i) h = get_elem?-BothSame qs ps i h.1

pub at-BothSame :
    (qs ps : List (List Msgbuf)) (key : ℤ) → AllSame qs ps → BothSame (at qs key) (at ps key)
at-BothSame qs ps (pos i) h = get_elem?-BothSame qs ps i h
at-BothSame qs ps (negsuc i) h = tt

set-AllSame :
    (qs ps : List (List Msgbuf)) (i : ℕ) (q p : List Msgbuf)
    → AllSame qs ps
    → SameBoxes q p
    → AllSame (set qs i q) (set ps i p)
set-AllSame [] [] i q p h same = tt
set-AllSame [] (x ∷ ps) i q p h same = absurd h
set-AllSame (x ∷ qs) [] i q p h same = absurd h
set-AllSame (x ∷ qs) (y ∷ ps) zero q p h same = (same, h.1)
set-AllSame (x ∷ qs) (y ∷ ps) (suc i) q p h same = (h.0, set-AllSame qs ps i q p h.1 same)

pub put_at-AllSame :
    (qs ps : List (List Msgbuf)) (key : ℤ) (q p : List Msgbuf)
    → AllSame qs ps
    → SameBoxes q p
    → AllSame (put_at qs key q) (put_at ps key p)
put_at-AllSame qs ps (pos i) q p h same = set-AllSame qs ps i q p h same
put_at-AllSame qs ps (negsuc i) q p h same = h

pub SameBoxes-append :
    (q p : List Msgbuf) (b : Msgbuf) → SameBoxes q p → SameBoxes (q ++ b ∷ []) (p ++ b ∷ [])
SameBoxes-append q p b h t =
    of_type-append t q b
    ∙ ap (λ l. if t == type_of b then l ++ b ∷ [] else l) (h t)
    ∙ sym (of_type-append t p b)

-- What the search finds in two queues.
abbrev pub FoundSame : Option Found → Option Found → Type 0
FoundSame none none = Unit {0}
FoundSame (some absent) (some absent) = Unit {0}
FoundSame (some too_long) (some too_long) = Unit {0}
FoundSame (some (taken b q)) (some (taken c p)) = (b ≡ c) × SameBoxes q p
FoundSame x y = ⊥

abbrev first_taken : Option Found → Msgbuf
first_taken none = []
first_taken (some absent) = []
first_taken (some too_long) = []
first_taken (some (taken b r)) = b

abbrev rest_taken : Option Found → List Msgbuf
rest_taken none = []
rest_taken (some absent) = []
rest_taken (some too_long) = []
rest_taken (some (taken b r)) = r

-- A search at a queue leaves the messages of other types.
abbrev LeavesOthers : ℕ → List Msgbuf → Option Found → Type 0
LeavesOthers t q o =
    (found : Found)
    → o ≡ some found
    → (u : ℕ) → (t == u) ≡ false
    → of_type u (left_by q found) ≡ of_type u q

FoundSame-shapes :
    (t : ℕ) (q p : List Msgbuf) (x y : Option Found)
    → SameBoxes q p
    → Option.map (in_box t) x ≡ Option.map (in_box t) y
    → LeavesOthers t q x
    → LeavesOthers t p y
    → FoundSame x y
FoundSame-shapes t q p none none h e kq kp = tt
FoundSame-shapes t q p none (some absent) h e kq kp = cc
FoundSame-shapes t q p none (some too_long) h e kq kp = cc
FoundSame-shapes t q p none (some (taken c r')) h e kq kp = cc
FoundSame-shapes t q p (some absent) none h e kq kp = cc
FoundSame-shapes t q p (some absent) (some absent) h e kq kp = tt
FoundSame-shapes t q p (some absent) (some too_long) h e kq kp = cc
FoundSame-shapes t q p (some absent) (some (taken c r')) h e kq kp = cc
FoundSame-shapes t q p (some too_long) none h e kq kp = cc
FoundSame-shapes t q p (some too_long) (some absent) h e kq kp = cc
FoundSame-shapes t q p (some too_long) (some too_long) h e kq kp = tt
FoundSame-shapes t q p (some too_long) (some (taken c r')) h e kq kp = cc
FoundSame-shapes t q p (some (taken b r)) none h e kq kp = cc
FoundSame-shapes t q p (some (taken b r)) (some absent) h e kq kp = cc
FoundSame-shapes t q p (some (taken b r)) (some too_long) h e kq kp = cc
FoundSame-shapes t q p (some (taken b r)) (some (taken c r')) h e kq kp = (
  ap (λ o. first_taken o) e,
  λ u. elim (Bool-cases (t == u)) [
    | inl now ↦
        let type : t ≡ u = ground arith in
        subst (λ v. of_type v r ≡ of_type v r') type (ap (λ o. rest_taken o) e)
    | inr other ↦ kq (taken b r) refl u other ∙ h u ∙ sym (kp (taken c r') refl u other)
  ],
)

pub look_for-FoundSame :
    (m : MsgConfig) (q p : List Msgbuf) → SameBoxes q p → FoundSame (look_for m q) (look_for m p)
look_for-FoundSame m q p h =
    FoundSame-shapes m.msgtyp q p (look_for m q) (look_for m p) h
      (look_for-first m q ∙ ap (first_of m) (h m.msgtyp) ∙ sym (look_for-first m p))
      (λ found e u other. look_for-Keeps m q found u e other)
      (λ found e u other. look_for-Keeps m p found u e other)
