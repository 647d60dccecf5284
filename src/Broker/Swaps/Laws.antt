-- ===== src/Broker/Swaps/Laws.antt =====
-- What a swap promises its caller (pallets/energy-broker/src/lib.rs): the price that was quoted, within
-- the limits that were set.
use power_plant.Prelude.{ℕ, ◌≤◌, ◌<◌, ◌≡◌, Bool, not, Option, none, some, arith, ok}
use power_plant.Broker.Swaps.{
  Bool, Option, ℕ, Config, Storage, Path2, get_amount_out, get_amount_in,
  do_swap_exact_tokens_for_tokens, do_swap_tokens_for_exact_tokens,
  quote_price_exact_tokens_for_tokens, quote_price_tokens_for_exact_tokens,
}

-- The limit of a caller who sets one.
abbrev pub IsMet : (ℕ → Type 0) → Option ℕ → Type 0
IsMet p none = Unit
IsMet p (some limit) = p limit

module _ (C : Config) where
  -- A swap of an exact amount that succeeds gives what was quoted to its caller, which is not zero and
  -- no less than the minimum that the caller set.
  pub do_swap_exact_tokens_for_tokens_quoted :
      (sender recipient : ℕ) (path : Path2) (amount_in : ℕ) (amount_out_min : Option ℕ)
      (keep_alive : Bool) (s : Storage C) (amount_out : ℕ)
      → (do_swap_exact_tokens_for_tokens C sender recipient path amount_in amount_out_min keep_alive
          s).0
        ≡ ok amount_out
      → (quote_price_exact_tokens_for_tokens C path.asset_in path.asset_out amount_in
            (not (C.is_feeless sender))
          ≡ some amount_out)
        × (0 < amount_out)
        × IsMet (λ limit. limit ≤ amount_out) amount_out_min
  unfolding do_swap_exact_tokens_for_tokens quote_price_exact_tokens_for_tokens get_amount_out
  do_swap_exact_tokens_for_tokens_quoted sender recipient path amount_in none keep_alive s
        amount_out e =
      ground arith
  do_swap_exact_tokens_for_tokens_quoted sender recipient path amount_in (some limit) keep_alive s
        amount_out e =
      ground arith

  -- A swap for an exact amount that succeeds costs what was quoted to its caller, which is not zero and
  -- no more than the maximum that the caller set.
  pub do_swap_tokens_for_exact_tokens_quoted :
      (sender recipient : ℕ) (path : Path2) (amount_out : ℕ) (amount_in_max : Option ℕ)
      (keep_alive : Bool) (s : Storage C) (amount_in : ℕ)
      → (do_swap_tokens_for_exact_tokens C sender recipient path amount_out amount_in_max keep_alive
          s).0
        ≡ ok amount_in
      → (quote_price_tokens_for_exact_tokens C path.asset_in path.asset_out amount_out
            (not (C.is_feeless sender))
          ≡ some amount_in)
        × (0 < amount_out)
        × IsMet (λ limit. amount_in ≤ limit) amount_in_max
  unfolding do_swap_tokens_for_exact_tokens quote_price_tokens_for_exact_tokens get_amount_in
  do_swap_tokens_for_exact_tokens_quoted sender recipient path amount_out none keep_alive s
        amount_in e =
      ground arith
  do_swap_tokens_for_exact_tokens_quoted sender recipient path amount_out (some limit) keep_alive s
        amount_in e =
      ground arith
