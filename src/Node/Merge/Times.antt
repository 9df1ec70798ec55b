-- ===== src/Node/Merge/Times.antt =====
-- The times that a merge stores.
use mathlib.Core.Path.{ap₂}
use multiprox.Prelude.{
  String, ◌≡◌, ◌≢◌, ◌∙◌, refl, sym, Bool, none, some, List, [], ◌∷◌, map, arith, All, eq_iff,
  eq_refl,
}
use multiprox.Api.Meta.{Condition}
use multiprox.Api.Node.{ProxmoxNodeStatus}
use multiprox.Node.Merge.{
  last_of_type, carry_time, strip_time, strip_condition_times, merge_node_status,
}

-- the two conditions differ in their times at most
pub record SameButTime (c d : Condition) : Type 0 where
  pub type : c.type ≡ d.type
  pub status : c.status ≡ d.status
  pub observed_generation : c.observed_generation ≡ d.observed_generation
  pub reason : c.reason ≡ d.reason
  pub message : c.message ≡ d.message

abbrev pub SameButTimes : List Condition → List Condition → Type 0
SameButTimes [] [] = Unit
SameButTimes [] (_ ∷ _) = ⊥
SameButTimes (_ ∷ _) [] = ⊥
SameButTimes (c ∷ cs) (d ∷ ds) = SameButTime c d × SameButTimes cs ds

abbrev pub HasUniqueTypes : List Condition → Type 0
HasUniqueTypes [] = Unit
HasUniqueTypes (c ∷ cs) = All (λ d. d.type ≢ c.type) cs × HasUniqueTypes cs

last_of_type-none :
    (type : String) (cs : List Condition)
    → All (λ d. d.type ≢ type) cs
    → last_of_type type cs ≡ none
unfolding last_of_type
last_of_type-none type [] h = refl
last_of_type-none type (c ∷ cs) (p, h) =
    ground (arith, last_of_type-none type cs h, eq_iff c.type type)

abbrev pub IsFound : List Condition → Condition → Type 0
IsFound all c = last_of_type c.type all ≡ some c

IsFound-cons :
    (b : Condition) (all cs : List Condition) → All (IsFound all) cs → All (IsFound (b ∷ all)) cs
unfolding last_of_type
IsFound-cons b all [] h = tt
IsFound-cons b all (c ∷ cs) (p, h) = (rw p, IsFound-cons b all cs h)

-- with unique types each condition is the one that its type finds
pub All-IsFound : (cs : List Condition) → HasUniqueTypes cs → All (IsFound cs) cs
unfolding last_of_type
All-IsFound [] h = tt
All-IsFound (c ∷ cs) (p, h) = (
  rw (last_of_type-none c.type cs p) (ground (arith, eq_refl c.type)),
  IsFound-cons c cs cs (All-IsFound cs h),
)

carry_time_found :
    (all : List Condition) (c d : Condition)
    → IsFound all c
    → SameButTime c d
    → carry_time all d ≡ c
unfolding carry_time
carry_time_found all c d found same =
    ground
      (arith, found, same.type, same.status, same.reason, same.message, same.observed_generation)

pub map-carry_time_found :
    (all cs ds : List Condition)
    → All (IsFound all) cs
    → SameButTimes cs ds
    → map (carry_time all) ds ≡ cs
map-carry_time_found all [] [] h same = refl
map-carry_time_found all [] (d ∷ ds) h same = absurd same
map-carry_time_found all (c ∷ cs) [] h same = absurd same
map-carry_time_found all (c ∷ cs) (d ∷ ds) (found, h) (one, same) =
    ap₂ ◌∷◌ (carry_time_found all c d found one) (map-carry_time_found all cs ds h same)

-- Carrying the times over changes nothing but times.
pub SameButTime-carry_time :
    (all : List Condition) (c : Condition) → SameButTime (carry_time all c) c
unfolding carry_time
SameButTime-carry_time all c = record {
  type = ground arith;
  status = ground arith;
  observed_generation = ground arith;
  reason = ground arith;
  message = ground arith;
}

pub SameButTimes-carry_time : (all cs : List Condition) → SameButTimes (map (carry_time all) cs) cs
SameButTimes-carry_time all [] = tt
SameButTimes-carry_time all (c ∷ cs) =
    (SameButTime-carry_time all c, SameButTimes-carry_time all cs)

strip_time_of_SameButTime : (c d : Condition) → SameButTime c d → strip_time c ≡ strip_time d
strip_time_of_SameButTime c d same =
    cc (same.type, same.status, same.observed_generation, same.reason, same.message)

pub strip_of_SameButTimes :
    (cs ds : List Condition)
    → SameButTimes cs ds
    → strip_condition_times cs ≡ strip_condition_times ds
unfolding strip_condition_times
strip_of_SameButTimes [] [] same = refl
strip_of_SameButTimes [] (d ∷ ds) same = absurd same
strip_of_SameButTimes (c ∷ cs) [] same = absurd same
strip_of_SameButTimes (c ∷ cs) (d ∷ ds) (one, same) =
    ap₂ ◌∷◌ (strip_time_of_SameButTime c d one) (strip_of_SameButTimes cs ds same)

-- How a stored condition follows from the conditions stored before: its content is the new one, and
-- its time is the old one exactly when the old condition of its type had the same status.
pub record Follows (before : List Condition) (fresh stored : Condition) : Type 0 where
  pub content : SameButTime stored fresh
  pub kept :
      (old : Condition)
      → last_of_type fresh.type before ≡ some old
      → old.status ≡ fresh.status
      → stored.last_transition_time ≡ old.last_transition_time
  pub flipped :
      (old : Condition)
      → last_of_type fresh.type before ≡ some old
      → old.status ≢ fresh.status
      → stored.last_transition_time ≡ fresh.last_transition_time
  pub appeared :
      last_of_type fresh.type before ≡ none
      → stored.last_transition_time ≡ fresh.last_transition_time

abbrev pub AllFollow : List Condition → List Condition → List Condition → Type 0
AllFollow before [] [] = Unit
AllFollow before [] (_ ∷ _) = ⊥
AllFollow before (_ ∷ _) [] = ⊥
AllFollow before (f ∷ fs) (s ∷ ss) = Follows before f s × AllFollow before fs ss

carry_time-Follows :
    (before : List Condition) (c : Condition) → Follows before c (carry_time before c)
unfolding carry_time
carry_time-Follows before c = record {
  content = SameButTime-carry_time before c;
  kept = λ old found same. ground arith;
  flipped = λ old found differ. ground arith;
  appeared = λ missing. ground arith;
}

map-carry_time-AllFollow :
    (before cs : List Condition) → AllFollow before cs (map (carry_time before) cs)
map-carry_time-AllFollow before [] = tt
map-carry_time-AllFollow before (c ∷ cs) =
    (carry_time-Follows before c, map-carry_time-AllFollow before cs)

pub conditions-merge_node_status :
    (deep_equal : ProxmoxNodeStatus → ProxmoxNodeStatus → Bool)
    (existing desired : ProxmoxNodeStatus)
    → (merge_node_status deep_equal existing desired).0.conditions
      ≡ map (carry_time existing.conditions) desired.conditions
unfolding merge_node_status
conditions-merge_node_status deep_equal existing desired = ground arith

-- Whatever is stored and whatever the test for equality, each stored condition has the new content,
-- and its time is that of the last flip: the old time where the status is the one stored before, and
-- the new time where it differs or where no condition of its type was stored.
pub merge_node_status-AllFollow :
    (deep_equal : ProxmoxNodeStatus → ProxmoxNodeStatus → Bool)
    (existing desired : ProxmoxNodeStatus)
    → AllFollow existing.conditions desired.conditions
        (merge_node_status deep_equal existing desired).0.conditions
merge_node_status-AllFollow deep_equal existing desired =
    rw (conditions-merge_node_status deep_equal existing desired)
      (map-carry_time-AllFollow existing.conditions desired.conditions)

pub SameButTimes-sym_trans :
    (xs ys zs : List Condition) → SameButTimes xs ys → SameButTimes zs ys → SameButTimes xs zs
SameButTimes-sym_trans [] [] [] h k = tt
SameButTimes-sym_trans [] [] (c ∷ zs) h k = absurd k
SameButTimes-sym_trans [] (b ∷ ys) zs h k = absurd h
SameButTimes-sym_trans (a ∷ xs) [] zs h k = absurd h
SameButTimes-sym_trans (a ∷ xs) (b ∷ ys) [] h k = absurd k
SameButTimes-sym_trans (a ∷ xs) (b ∷ ys) (c ∷ zs) (one, h) (two, k) = (
  record {
    type = one.type ∙ sym two.type;
    status = one.status ∙ sym two.status;
    observed_generation = one.observed_generation ∙ sym two.observed_generation;
    reason = one.reason ∙ sym two.reason;
    message = one.message ∙ sym two.message;
  },
  SameButTimes-sym_trans xs ys zs h k,
)

ne_type :
    (c d : Condition) (cs ds : List Condition)
    → c.type ≡ d.type
    → SameButTimes cs ds
    → All (λ e. e.type ≢ d.type) ds
    → All (λ e. e.type ≢ c.type) cs
ne_type c d [] [] p same h = tt
ne_type c d [] (y ∷ ys) p same h = tt
ne_type c d (x ∷ xs) [] p same h = absurd same
ne_type c d (x ∷ xs) (y ∷ ys) p (one, same) (q, h) =
    ((λ e. q (sym one.type ∙ e ∙ p)), ne_type c d xs ys p same h)

pub HasUniqueTypes-SameButTimes :
    (cs ds : List Condition) → SameButTimes cs ds → HasUniqueTypes ds → HasUniqueTypes cs
HasUniqueTypes-SameButTimes [] ds same h = tt
HasUniqueTypes-SameButTimes (c ∷ cs) [] same h = absurd same
HasUniqueTypes-SameButTimes (c ∷ cs) (d ∷ ds) (one, same) (p, h) =
    (ne_type c d cs ds one.type same p, HasUniqueTypes-SameButTimes cs ds same h)
