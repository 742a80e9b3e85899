-- ===== src/Address/Order.antt =====
-- The order of addresses is total, and equal to the order only on equal addresses.
use capa_x.Prelude.{ℕ, ◌≡◌, ◌↔◌, subst, refl, sym, ap, ◌∙◌, List, [], ◌∷◌, Ordering, zero, suc}
use capa_x.Ordered.{Ord, lex_self, eq_of_lex, lex-swap, lex_trans, swap}
use capa_x.Address.{
  Address, absolute, relative, file, dn_token, dn_token_offset, process, thread, call, no_address,
  sort_key, cmp,
}

-- reads an address back from its key
of_kind : ℕ → ℕ → ℕ → ℕ → ℕ → ℕ → Address
of_kind zero v a b c d = absolute v
of_kind (suc zero) v a b c d = relative v
of_kind (suc (suc zero)) v a b c d = file v
of_kind (suc (suc (suc zero))) v a b c d = dn_token v
of_kind (suc (suc (suc (suc zero)))) v a b c d = dn_token_offset a b
of_kind (suc (suc (suc (suc (suc zero))))) v a b c d = process a b
of_kind (suc (suc (suc (suc (suc (suc zero)))))) v a b c d = thread a b c
of_kind (suc (suc (suc (suc (suc (suc (suc zero))))))) v a b c d = call a b c d
of_kind _ v a b c d = no_address

of_key : List ℕ → Address
of_key (k ∷ v ∷ a ∷ b ∷ c ∷ d ∷ []) = of_kind k v a b c d
of_key _ = no_address

of_key-sort_key : (a : Address) → of_key (sort_key a) ≡ a
unfolding of_key of_kind sort_key
of_key-sort_key (absolute v) = refl
of_key-sort_key _ = refl

sort_key_injective : (a b : Address) → sort_key a ≡ sort_key b → a ≡ b
sort_key_injective a b h = sym (of_key-sort_key a) ∙ ap of_key h ∙ of_key-sort_key b

pub cmp_self : (a : Address) → cmp a a ≡ Ordering.eq
cmp_self a = unfold cmp in lex_self (sort_key a)

-- Two addresses that the order does not tell apart are the same address.
pub eq_of_cmp : (a b : Address) → cmp a b ≡ Ordering.eq → a ≡ b
eq_of_cmp a b h = sort_key_injective a b (eq_of_lex (sort_key a) (sort_key b) (unfold cmp in h))

pub cmp_swap : (a b : Address) → cmp b a ≡ swap (cmp a b)
cmp_swap a b = unfold cmp in lex-swap (sort_key a) (sort_key b)

-- The order is total: two addresses compare as equal exactly when they are the same address, and
-- comparing them the other way round gives the opposite outcome.
pub cmp_total : (a b : Address) → ((cmp a b ≡ Ordering.eq) ↔ (a ≡ b)) × (cmp b a ≡ swap (cmp a b))
cmp_total a b =
    ((eq_of_cmp a b, λ e. subst (λ c. cmp a c ≡ Ordering.eq) e (cmp_self a)), cmp_swap a b)

-- The order of addresses is transitive.
pub lt_trans :
    (a b c : Address) → cmp a b ≡ Ordering.lt → cmp b c ≡ Ordering.lt → cmp a c ≡ Ordering.lt
lt_trans a b c h k = unfold cmp in lex_trans (sort_key a) (sort_key b) (sort_key c) h k

instance abbrev pub address_ord : Ord Address
address_ord = record {
  cmp = cmp;
  cmp_self = cmp_self;
  eq_of_cmp = eq_of_cmp;
  cmp_swap = cmp_swap;
  lt_trans = lt_trans;
}
