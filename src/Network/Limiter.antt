-- ===== src/Network/Limiter.antt =====
-- windows/flowtype-app/src/network_server.rs: `ControlConnectionLimiter`, which counts the control
-- connections of each authenticated phone. The hash map is a list of pairs, each phone once.
use flow_type.Prelude.{
  Text, ℕ, ◌+◌, ◌-◌, ◌≤◌, ◌<◌, ◌≡◌, ◌↔◌, refl, arith, true, Option, none, some, List, [], ◌∷◌, ◌==◌,
  leb, text_eq, text_eq_iff, if◌then◌else◌, is_some,
}

-- main.rs, `MAX_CONTROL_CONNECTIONS_PER_PHONE`
abbrev pub max_control_connections_per_phone : ℕ
max_control_connections_per_phone = 2

abbrev pub Phones : Type 0
Phones = List (Text × ℕ)

-- `HashMap::get`
unfoldable pub get : Text → Phones → Option ℕ
get p [] = none
get p ((q, n) ∷ rest) = let found = get p rest in if text_eq q p then some n else found

abbrev pub or_zero : Option ℕ → ℕ
or_zero none = 0
or_zero (some n) = n

-- `HashMap::insert`
unfoldable pub insert : Text → ℕ → Phones → Phones
insert p n [] = (p, n) ∷ []
insert p n ((q, m) ∷ rest) =
    let inserted = insert p n rest in if text_eq q p then (q, n) ∷ rest else (q, m) ∷ inserted

-- `HashMap::remove`
unfoldable pub remove : Text → Phones → Phones
remove p [] = []
remove p ((q, n) ∷ rest) =
    let removed = remove p rest in if text_eq q p then removed else (q, n) ∷ removed

-- `none` leaves the map as it is: an entry that `or_default` adds is below the maximum.
unfoldable pub try_acquire : Text → Phones → Option Phones
unfolding get insert
try_acquire p phones =
    let active = or_zero (get p phones) in
    if leb max_control_connections_per_phone active
    then none
    else some (insert p (active + 1) phones)

-- `ControlConnectionLease::drop`
unfoldable pub drop_lease : Text → Phones → Phones
unfolding get insert remove
drop_lease p phones = elim (get p phones) [
  | none ↦ phones
  | some active ↦ if active - 1 == 0 then remove p phones else insert p (active - 1) phones
]

-- What happens to the limiter: a phone connects, or one of its connections ends.
pub data Event : Type 0 where
  connect disconnect : Text → Event

-- The map, and the phones of the leases that are held.
pub record Limiter : Type 0 where
  pub phones : Phones
  pub leases : List Text

unfoldable pub held : Text → List Text → ℕ
held p [] = 0
held p (q ∷ rest) = let others = held p rest in if text_eq q p then others + 1 else others

-- The leases without one of `p`.
unfoldable pub without : Text → List Text → List Text
without p [] = []
without p (q ∷ rest) = let others = without p rest in if text_eq q p then rest else q ∷ others

unfoldable pub step : Event → Limiter → Limiter
unfolding try_acquire
step (connect p) l = elim (try_acquire p l.phones) [
  | none ↦ l
  | some phones ↦ record { phones = phones; leases = p ∷ l.leases }
]
step (disconnect p) l =
    if held p l.leases == 0
    then l
    else record { phones = drop_lease p l.phones; leases = without p l.leases }

unfoldable pub steps : List Event → Limiter → Limiter
steps [] l = l
steps (e ∷ rest) l = steps rest (step e l)

abbrev pub no_connections : Limiter
no_connections = record { phones = []; leases = [] }

get-insert :
    (p r : Text) (n : ℕ) (t : Phones)
    → get r (insert p n t) ≡ (if text_eq p r then some n else get r t)
unfolding get insert
get-insert p r n [] = refl
get-insert p r n ((q, m) ∷ t) =
    ground (arith, get-insert p r n t, text_eq_iff q p, text_eq_iff p r, text_eq_iff q r)

get-remove :
    (p r : Text) (t : Phones) → get r (remove p t) ≡ (if text_eq p r then none else get r t)
unfolding get remove
get-remove p r [] = ground arith
get-remove p r ((q, m) ∷ t) =
    ground (arith, get-remove p r t, text_eq_iff q p, text_eq_iff p r, text_eq_iff q r)

held-without :
    (p r : Text) (l : List Text)
    → held r (without p l) ≡ (if text_eq p r then held r l - 1 else held r l)
unfolding held without
held-without p r [] = ground arith
held-without p r (q ∷ l) =
    ground (arith, held-without p r l, text_eq_iff q p, text_eq_iff p r, text_eq_iff q r)

-- What the map should hold for a phone with `n` leases: no entry where there are none.
abbrev pub shown : ℕ → Option ℕ
shown n = if n == 0 then none else some n

-- The map counts the leases, and no phone has more than two.
abbrev pub IsCounted : Limiter → Type 0
IsCounted l =
    (p : Text)
    → (get p l.phones ≡ shown (held p l.leases))
      × (held p l.leases ≤ max_control_connections_per_phone)

connect-IsCounted : (p : Text) (l : Limiter) → IsCounted l → IsCounted (step (connect p) l)
unfolding step held
connect-IsCounted p l h r = (
  ground (arith, h p, h r, get-insert p r (held p l.leases + 1) l.phones, text_eq_iff p r),
  ground (arith, h p, h r, text_eq_iff p r),
)

disconnect-IsCounted : (p : Text) (l : Limiter) → IsCounted l → IsCounted (step (disconnect p) l)
unfolding step drop_lease
disconnect-IsCounted p l h r = (
  ground (
    arith,
    h p,
    h r,
    get-insert p r (held p l.leases - 1) l.phones,
    get-remove p r l.phones,
    held-without p r l.leases,
    text_eq_iff p r,
  ),
  ground (arith, h p, h r, held-without p r l.leases, text_eq_iff p r),
)

steps-IsCounted : (events : List Event) (l : Limiter) → IsCounted l → IsCounted (steps events l)
unfolding steps
steps-IsCounted [] l h = h
steps-IsCounted (connect p ∷ rest) l h =
    steps-IsCounted rest (step (connect p) l) (connect-IsCounted p l h)
steps-IsCounted (disconnect p ∷ rest) l h =
    steps-IsCounted rest (step (disconnect p) l) (disconnect-IsCounted p l h)

none-IsCounted : IsCounted no_connections
unfolding held get
none-IsCounted p = (refl, omega arith)

-- After any connects and disconnects, the limiter's map has for every phone the number of its open
-- connections and no entry for a phone without one, no phone has more than two, and the next
-- connect of a phone is admitted exactly when it has fewer than two.
pub try_acquire_lem :
    (events : List Event) (p : Text)
    → (get p (steps events no_connections).phones
        ≡ shown (held p (steps events no_connections).leases))
      × (held p (steps events no_connections).leases ≤ 2)
      × ((is_some (try_acquire p (steps events no_connections).phones) ≡ true)
          ↔ (held p (steps events no_connections).leases < 2))
unfolding try_acquire
try_acquire_lem events p =
    let counted = steps-IsCounted events no_connections none-IsCounted p in
    (counted.0, counted.1, ground (arith, counted))
