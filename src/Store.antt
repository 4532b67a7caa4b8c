-- ===== src/Store.antt =====
-- internal/store/store.go: versioned values under string keys. The map is a function from keys to
-- optional values; a method under the store's lock is one function to the store that it leaves.
pub mod Lookup
pub mod Merge
pub mod Converge
pub mod Within
pub mod Taken
use distributed_key_value_st.Prelude.{
  ℕ, String, Bool, true, false, Option, none, some, List, [], if◌then◌else◌, ◌==◌,
}
use distributed_key_value_st.Prelude.Int.{pos, leb_ℤ}
use distributed_key_value_st.Hlc.{Timestamp, zero_ts, compare}

pub record Dependency : Type 0 where
  pub key : String
  pub min_ts : Timestamp

-- `payload` is the field `Data`: a list of bytes, in which nil and the empty slice are one.
pub record Value : Type 0 where
  pub payload : List ℕ
  pub timestamp : Timestamp
  pub deps : List Dependency
  pub deleted : Bool

-- `Value{}`
abbrev pub zero_value : Value
zero_value = record { payload = []; timestamp = zero_ts; deps = []; deleted = false }

-- `Value{Timestamp: ts, Deleted: true}`
abbrev pub tombstone : Timestamp → Value
tombstone ts = record { payload = []; timestamp = ts; deps = []; deleted = true }

pub record Store : Type 0 where
  pub entries : String → Option Value

abbrev pub new : Store
new = record { entries = λ key. none }

-- `s.data[key] = val`
unfoldable pub assign : Store → String → Value → Store
assign s key val = record { entries = λ k. if key == k then some val else s.entries k }

unfoldable pub put : Store → String → Value → Store
put s key val = assign s key val

-- Whether a write stamped `ts` loses against what the map holds.
unfoldable pub is_stale : Timestamp → Option Value → Bool
is_stale ts none = false
is_stale ts (some cur) = leb_ℤ (compare ts cur.timestamp) (pos 0)

unfoldable pub apply : Store → String → Value → Store × Bool
unfolding is_stale
apply s key val =
    if is_stale val.timestamp (s.entries key) then (s, false) else (assign s key val, true)

get_visible : Option Value → Value × Bool
get_visible none = (zero_value, false)
get_visible (some val) = if val.deleted then (zero_value, false) else (val, true)

unfoldable pub get : Store → String → Value × Bool
unfolding get_visible
get s key = get_visible (s.entries key)

version_of : Option Value → Timestamp × Bool
version_of none = (zero_ts, false)
version_of (some val) = (val.timestamp, true)

unfoldable pub get_version : Store → String → Timestamp × Bool
unfolding version_of
get_version s key = version_of (s.entries key)

unfoldable pub delete : Store → String → Timestamp → Store
delete s key ts = assign s key (tombstone ts)

unfoldable pub apply_delete : Store → String → Timestamp → Store × Bool
unfolding is_stale
apply_delete s key ts =
    let val = tombstone ts in
    if is_stale ts (s.entries key) then (s, false) else (assign s key val, true)
