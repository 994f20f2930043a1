-- ===== src/Config/Numeric.antt =====
-- accelerator/config.c: the numeric options.
use tangle_accelerator.Base.{
  ℕ, suc, ◌+◌, ◌-◌, ◌*◌, ◌^◌, ◌≤◌, ◌<◌, Bool, true, false, not, ◌&&◌, ◌||◌, ◌==◌, if◌then◌else◌,
  some, Bytes, [], ◌∷◌, append_nil, lt→ltb, ◌≡◌, refl, sym, ap, ◌∙◌, arith,
}
use tangle_accelerator.Exec.{done}
use tangle_accelerator.Endpoint.Decimal.{
  is_digit, is_space, value_on, skip_space, fixed, fixed_head, value_on-fixed,
}
use tangle_accelerator.Config.Numbers.{
  ℤ, pos, Strtol, strtol, is_int, is_up_to, read_sign, converted,
}
use tangle_accelerator.Config.{
  Outside, TaCore, CliCase, ta_port_cli, http_threads_cli, period_cli, redis_port_cli,
  cache_capacity_cli, milestone_depth_cli, mwm_cli, case_in, cases, number, store_port,
  store_threads, store_period, store_redis_port, store_capacity, store_depth, store_mwm, set_case,
  cli_core_set,
}

-- The options that strtol reads once.
abbrev pub is_numeric : CliCase → Bool
is_numeric ta_port_cli = true
is_numeric http_threads_cli = true
is_numeric period_cli = true
is_numeric redis_port_cli = true
is_numeric cache_capacity_cli = true
is_numeric milestone_depth_cli = true
is_numeric mwm_cli = true
is_numeric _ = false

-- The largest number that the option takes.
abbrev pub most : CliCase → ℕ
most http_threads_cli = 255
most _ = 2 ^ 31 - 1

module _ (o : Outside) where
  -- What the option does with a number in its range.
  abbrev pub stored : CliCase → ℤ → TaCore → TaCore
  stored ta_port_cli z c = store_port o z c
  stored http_threads_cli z c = store_threads o z c
  stored period_cli z c = store_period o z c
  stored redis_port_cli z c = store_redis_port o z c
  stored cache_capacity_cli z c = store_capacity o z c
  stored milestone_depth_cli z c = store_depth o z c
  stored mwm_cli z c = store_mwm o z c
  stored _ z c = c

  value_end : (n : ℕ) → value_on n [] ≡ n
  unfolding value_on
  value_end n = refl

  read_sign-digit :
      (c : ℕ) (s : Bytes)
      → is_digit c ≡ true
      → read_sign (skip_space (c ∷ s)) ≡ converted false (value_on 0 (c ∷ s))
  unfolding skip_space
  read_sign-digit c s d =
      let space : is_space c ≡ false = ground arith in
      let minus : (c == b'-') ≡ false = ground arith in
      let plus : (c == b'+') ≡ false = ground arith in rw space (rw minus (rw plus (rw d refl)))

  read-fixed :
      (w n : ℕ)
      → n < 10 ^ suc w
      → n < 2 ^ 63
      → read_sign (skip_space (fixed (suc w) n))
        ≡ record { value = pos n; moved = true; range = false }
  read-fixed w n h small =
      let (c, s, e, d) = fixed_head w n in
      ap (λ t. read_sign (skip_space t)) e
      ∙ read_sign-digit c s d
      ∙ ap (λ t. converted false (value_on 0 t)) (sym e ∙ sym (append_nil (fixed (suc w) n)))
      ∙ ap (converted false) (
          value_on-fixed (suc w) 0 n [] h
          ∙ value_end (0 * 10 ^ suc w + n)
          ∙ zero_times (10 ^ suc w))
      ∙ rw (lt→ltb n (2 ^ 63) small) refl
    where
      zero_times : (x : ℕ) → 0 * x + n ≡ n
      zero_times x = grind arith

  strtol-fixed :
      (w n : ℕ)
      → n < 10 ^ suc w
      → n < 2 ^ 63
      → strtol (fixed (suc w) n) ≡ record { value = pos n; moved = true; range = false }
  unfolding strtol
  strtol-fixed = read-fixed

  -- Where errno is ERANGE, a numeric option changes nothing, whatever its text, and SC_OK is returned.
  pub cli_core_set_sticks :
      (c : TaCore) (key : ℕ) (value : Bytes)
      → c.errno_range ≡ true
      → is_numeric (case_in key cases) ≡ true
      → cli_core_set o c key (some value) ≡ done c
  unfolding cli_core_set set_case
  cli_core_set_sticks c key value h k = ap done (by_case (case_in key cases) k)
    where
      off : (a b d : Bool) (x y : TaCore) → b ≡ false → (if a && b && d then x else y) ≡ y
      off false b d x y p = refl
      off true false d x y p = refl
      off true true d x y p = cc

      kept :
          (r : Strtol) (moved : Bool) (t : ℤ → Bool) (f : ℤ → TaCore → TaCore)
          → number r moved t f c ≡ c
      kept r moved t f =
          off moved (not (c.errno_range || r.range)) (t r.value) _ _ (rw h refl)
          ∙ ap (λ b. record c { errno_range = b || r.range }) h
          ∙ ap (λ b. record c { errno_range = b }) (sym h)

      by_case : (k : CliCase) → is_numeric k ≡ true → set_case o k value c ≡ c
      by_case ta_port_cli k = kept (strtol value) (strtol value).moved is_int (store_port o)
      by_case http_threads_cli k =
          kept (strtol value) (strtol value).moved (is_up_to 255) (store_threads o)
      by_case period_cli k = kept (strtol value) true is_int (store_period o)
      by_case redis_port_cli k = kept (strtol value) true is_int (store_redis_port o)
      by_case cache_capacity_cli k = kept (strtol value) true is_int (store_capacity o)
      by_case milestone_depth_cli k = kept (strtol value) true is_int (store_depth o)
      by_case mwm_cli k = kept (strtol value) true is_int (store_mwm o)
      by_case _ k = cc

  -- Where errno is not ERANGE, a numeric option does with a decimal numeral, with or without zeros in front, what it
  -- does with the number, if that is at most the largest one it takes.
  pub cli_core_set_stores :
      (c : TaCore) (key w n : ℕ)
      → c.errno_range ≡ false
      → is_numeric (case_in key cases) ≡ true
      → n < 10 ^ suc w
      → n ≤ most (case_in key cases)
      → cli_core_set o c key (some (fixed (suc w) n)) ≡ done (stored (case_in key cases) (pos n) c)
  unfolding cli_core_set set_case
  cli_core_set_stores c key w n h k b m = ap done (by_case (case_in key cases) k m)
    where
      on :
          (a b d : Bool) (x y : TaCore)
          → a ≡ true
          → b ≡ true
          → d ≡ true
          → (if a && b && d then x else y) ≡ x
      on true true true x y p q r = refl
      on false b d x y p q r = cc
      on true false d x y p q r = cc
      on true true false x y p q r = cc

      same : record c { errno_range = false } ≡ c
      same = ap (λ e. record c { errno_range = e }) (sym h)

      given : Strtol
      given = record { value = pos n; moved = true; range = false }

      takes :
          (moved : Bool) (t : ℤ → Bool) (f : ℤ → TaCore → TaCore)
          → moved ≡ true
          → t (pos n) ≡ true
          → number given moved t f c ≡ f (pos n) c
      takes moved t f p q =
          on moved (not (c.errno_range || false)) (t (pos n)) _ _ p (rw h refl) q
          ∙ ap (λ e. f (pos n) (record c { errno_range = e || false })) h
          ∙ ap (f (pos n)) same

      by_strtol :
          (moved : Strtol → Bool) (t : ℤ → Bool) (f : ℤ → TaCore → TaCore)
          → moved given ≡ true
          → n ≤ 2 ^ 31 - 1
          → t (pos n) ≡ true
          → (let r = strtol (fixed (suc w) n) in number r (moved r) t f c) ≡ f (pos n) c
      by_strtol moved t f p small q =
          ap (λ r. number r (moved r) t f c) (strtol-fixed w n b (omega (arith, small)))
          ∙ takes (moved given) t f p q

      int : n ≤ 2 ^ 31 - 1 → is_int (pos n) ≡ true
      int small = lt→ltb n (2 ^ 31) (omega (arith, small))

      by_case :
          (k : CliCase)
          → is_numeric k ≡ true
          → n ≤ most k
          → set_case o k (fixed (suc w) n) c ≡ stored k (pos n) c
      by_case ta_port_cli k m = by_strtol (λ r. r.moved) is_int (store_port o) refl m (int m)
      by_case http_threads_cli k m =
          by_strtol (λ r. r.moved) (is_up_to 255) (store_threads o) refl (omega arith)
            (ground arith)
      by_case period_cli k m = by_strtol (λ r. true) is_int (store_period o) refl m (int m)
      by_case redis_port_cli k m = by_strtol (λ r. true) is_int (store_redis_port o) refl m (int m)
      by_case cache_capacity_cli k m =
          by_strtol (λ r. true) is_int (store_capacity o) refl m (int m)
      by_case milestone_depth_cli k m = by_strtol (λ r. true) is_int (store_depth o) refl m (int m)
      by_case mwm_cli k m = by_strtol (λ r. true) is_int (store_mwm o) refl m (int m)
      by_case _ k m = cc
