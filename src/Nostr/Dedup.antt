-- ===== src/Nostr/Dedup.antt =====
-- The bounded memory of event ids that crates/omachat-nostr/src/pool.rs (`remember_event`) and
-- dm_inbox.rs (`remember`) both write out. A `HashSet` is the list of its members, in the order of
-- insertion; the front of the queue is the head of the list.
pub mod Window
pub mod Recent
pub mod Again
pub mod Coverage
pub mod History
use oma_chat.Base.{
  ℕ, ◌-◌, Bool, true, false, not, List, [], ◌∷◌, ◌++◌, ltb, leb, length, anyb, filterb, Bytes,
  bytes_eq, if◌then◌else◌,
}

-- `HashSet::contains`, `remove` and `insert`.
unfoldable pub contains : List Bytes → Bytes → Bool
contains set id = anyb (λ x. bytes_eq x id) set

unfoldable pub without : List Bytes → Bytes → List Bytes
without set id = filterb (λ x. not (bytes_eq x id)) set

unfoldable pub with : List Bytes → Bytes → List Bytes
with set id = if contains set id then set else set ++ (id ∷ [])

pub record Seen : Type 0 where
  pub seen : List Bytes
  pub seen_order : List (ℕ × Bytes)

abbrev pub nothing_seen : Seen
nothing_seen = record { seen = []; seen_order = [] }

-- The first `while`: what has outlived `ttl` is forgotten, from the front.
unfoldable pub expire : ℕ → ℕ → List Bytes → List (ℕ × Bytes) → Seen
expire ttl now seen [] = record { seen = seen; seen_order = [] }
expire ttl now seen ((seen_at, oldest) ∷ order) =
    let rest = expire ttl now (without seen oldest) order in
    if ltb (now - seen_at) ttl
    then record { seen = seen; seen_order = (seen_at, oldest) ∷ order }
    else rest

-- The second `while`: the oldest are forgotten until there is room.
unfoldable pub make_room : ℕ → List Bytes → List (ℕ × Bytes) → Seen
make_room capacity seen [] = record { seen = seen; seen_order = [] }
make_room capacity seen ((seen_at, oldest) ∷ order) =
    let rest = make_room capacity (without seen oldest) order in
    if leb capacity (length seen)
    then rest
    else record { seen = seen; seen_order = (seen_at, oldest) ∷ order }

unfoldable pub enter : ℕ → ℕ → Bytes → Seen → Seen
enter capacity now id s =
    let t = make_room capacity s.seen s.seen_order in
    record { seen = with t.seen id; seen_order = t.seen_order ++ ((now, id) ∷ []) }

-- The memory afterwards, and whether the id is new to it.
unfoldable pub remember : ℕ → ℕ → ℕ → Bytes → Seen → Seen × Bool
remember capacity ttl now id s =
    let t = expire ttl now s.seen s.seen_order in
    if contains t.seen id then (t, false) else (enter capacity now id t, true)
