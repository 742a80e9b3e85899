-- ===== src/Address.antt =====
-- capa-x/src/address.rs: where a feature was found. A number of the source is a `u64` or a `u32`;
-- nothing here computes with them, so their ranges play no part.
pub mod Order
use capa_x.Prelude.{ℕ, Bool, true, List, [], ◌∷◌, Ordering, not, ◌==◌}
use capa_x.Ordered.{lex}

pub data Address : Type 0 where
  absolute relative file dn_token : ℕ → Address
  dn_token_offset : ℕ → ℕ → Address
  process : ℕ → ℕ → Address
  thread : ℕ → ℕ → ℕ → Address
  call : ℕ → ℕ → ℕ → ℕ → Address
  no_address : Address

-- the kind, then the six-tuple's fields in their order
sort_key : Address → List ℕ
sort_key (absolute v) = 0 ∷ v ∷ 0 ∷ 0 ∷ 0 ∷ 0 ∷ []
sort_key (relative v) = 1 ∷ v ∷ 0 ∷ 0 ∷ 0 ∷ 0 ∷ []
sort_key (file v) = 2 ∷ v ∷ 0 ∷ 0 ∷ 0 ∷ 0 ∷ []
sort_key (dn_token v) = 3 ∷ v ∷ 0 ∷ 0 ∷ 0 ∷ 0 ∷ []
sort_key (dn_token_offset token offset) = 4 ∷ 0 ∷ token ∷ offset ∷ 0 ∷ 0 ∷ []
sort_key (process ppid pid) = 5 ∷ 0 ∷ ppid ∷ pid ∷ 0 ∷ 0 ∷ []
sort_key (thread ppid pid tid) = 6 ∷ 0 ∷ ppid ∷ pid ∷ tid ∷ 0 ∷ []
sort_key (call ppid pid tid id) = 7 ∷ 0 ∷ ppid ∷ pid ∷ tid ∷ id ∷ []
sort_key no_address = 8 ∷ 0 ∷ 0 ∷ 0 ∷ 0 ∷ 0 ∷ []

-- `Ord for Address`
unfoldable pub cmp : Address → Address → Ordering
unfolding sort_key lex
cmp a b = lex (sort_key a) (sort_key b)

-- the truth value of the Python object that an address stands for
pub is_truthy : Address → Bool
is_truthy (absolute v) = not (v == 0)
is_truthy (relative v) = not (v == 0)
is_truthy (file v) = not (v == 0)
is_truthy (dn_token v) = not (v == 0)
is_truthy _ = true
