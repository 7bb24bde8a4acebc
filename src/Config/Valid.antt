-- ===== src/Config/Valid.antt =====
-- The limits of a configuration, and `set`.
use vextra.Base.{
  ℕ, ◌^◌, String, ◌≡◌, refl, ◌∙◌, ◌⊎◌, inl, inr, Bool, true, false, ◌||◌, Option, none, some, arith,
  if◌then◌else◌, Bool-cases, Text, codes, text_eq, eq_of_text_eq,
}
use vextra.Base.Int.{ℤ, pos, ltb_ℤ, ◌≤ℤ◌}
use vextra.Base.Result.{Result, ok, err}
use vextra.Config.{
  Config, default_config, hash_name, or_bad, parse_size, set_workers, set_block_size, set_key,
}

pub record Valid (c : Config) : Type 0 where
  pub compressed : (c.compression ≡ codes "auto") ⊎ (c.compression ≡ codes "off")
  pub hashed : c.hash ≡ hash_name
  pub worked : pos 0 ≤ℤ c.workers
  pub blocks_low : pos (2 ^ 12) ≤ℤ c.block_size
  pub blocks_high : c.block_size ≤ℤ pos (2 ^ 24)

pub default_config-Valid : Valid default_config
default_config-Valid = record {
  compressed = inl refl;
  hashed = refl;
  worked = omega arith;
  blocks_low = omega arith;
  blocks_high = omega arith;
}

-- What a result holds, if it is a value.
abbrev pub Good : Result Config → Type 0
Good (ok c) = Valid c
Good (err e) = Unit

Good-if :
    (b : Bool) (x y : Result Config)
    → (b ≡ true → Good x)
    → (b ≡ false → Good y)
    → Good (if b then x else y)
Good-if true x y h k = h refl
Good-if false x y h k = k refl

Good-or_bad :
    {A : Type 0} (o : Option A) (f : A → Config) → ((a : A) → Valid (f a)) → Good (or_bad o f)
Good-or_bad none f h = tt
Good-or_bad (some a) f h = h a

-- Only the fields of `Valid` matter to it.
pub with_others :
    (c d : Config)
    → d.compression ≡ c.compression
    → d.hash ≡ c.hash
    → d.workers ≡ c.workers
    → d.block_size ≡ c.block_size
    → Valid c
    → Valid d
with_others c d e f g h v = record {
  compressed = rw e v.compressed;
  hashed = f ∙ v.hashed;
  worked = rw g v.worked;
  blocks_low = rw h v.blocks_low;
  blocks_high = rw h v.blocks_high;
}

module _ {F : Type 0} (parse_float : Text → Option F) (negative : F → Bool) (times : F → ℕ → ℤ)
    (parse_bool : Text → Option Bool) (atoi : Text → Option ℤ) where
  Good-set_workers :
      (o : Option ℤ) (c : Config)
      → Valid c
      → Good (set_workers parse_float negative times parse_bool atoi o c)
  Good-set_workers none c v = tt
  Good-set_workers (some n) c v =
      Good-if (ltb_ℤ n (pos 1)) _ _ (λ e. tt)
        (λ e. record {
          compressed = v.compressed;
          hashed = v.hashed;
          worked = ground (arith, e);
          blocks_low = v.blocks_low;
          blocks_high = v.blocks_high;
        })

  Good-set_block_size :
      (o : Option ℤ) (c : Config)
      → Valid c
      → Good (set_block_size parse_float negative times parse_bool atoi o c)
  Good-set_block_size none c v = tt
  Good-set_block_size (some n) c v =
      Good-if (ltb_ℤ n (pos (2 ^ 12)) || ltb_ℤ (pos (2 ^ 24)) n) _ _ (λ e. tt)
        (λ e. record {
          compressed = v.compressed;
          hashed = v.hashed;
          worked = v.worked;
          blocks_low = ground (arith, e);
          blocks_high = ground (arith, e);
        })

  Good-compression :
      (val : Text) (c : Config)
      → Valid c
      → (text_eq val (codes "auto") || text_eq val (codes "off")) ≡ true
      → Valid (record c { compression = val })
  Good-compression val c v e = record {
    compressed = elim (Bool-cases (text_eq val (codes "auto"))) [
      | inl a ↦ inl (eq_of_text_eq val (codes "auto") a)
      | inr n ↦ inr (eq_of_text_eq val (codes "off") (ground arith))
    ];
    hashed = v.hashed;
    worked = v.worked;
    blocks_low = v.blocks_low;
    blocks_high = v.blocks_high;
  }

  Good-hash :
      (val : Text) (c : Config)
      → Valid c
      → text_eq val hash_name ≡ true
      → Valid (record c { hash = val })
  Good-hash val c v e = record {
    compressed = v.compressed;
    hashed = eq_of_text_eq val hash_name e;
    worked = v.worked;
    blocks_low = v.blocks_low;
    blocks_high = v.blocks_high;
  }

  Good-auto : (c : Config) → Valid c → Valid (record c { workers = pos 0 })
  Good-auto c v = record {
    compressed = v.compressed;
    hashed = v.hashed;
    worked = omega arith;
    blocks_low = v.blocks_low;
    blocks_high = v.blocks_high;
  }

  pub set_key-Good :
      (key val : Text) (c : Config)
      → Valid c
      → Good (set_key parse_float negative times parse_bool atoi key val c)
  unfolding set_key
  set_key-Good key val c v =
      let size = parse_size parse_float negative times parse_bool atoi val in
      let is = λ (s : String). text_eq key (codes s) in
      Good-if (is "compression") _ _
        (λ k.
          Good-if (text_eq val (codes "auto") || text_eq val (codes "off")) _ _
            (Good-compression val c v) (λ n. tt))
        (λ n.
          Good-if (is "hash") _ _
            (λ k. Good-if (text_eq val hash_name) _ _ (Good-hash val c v) (λ n. tt))
            (λ n.
              Good-if (is "resume") _ _
                (λ k. Good-or_bad (parse_bool val) _ (λ a. with_others c _ refl refl refl refl v))
                (λ n.
                  Good-if (is "safety.max_delete") _ _
                    (λ k. Good-or_bad (atoi val) _ (λ a. with_others c _ refl refl refl refl v))
                    (λ n.
                      Good-if (is "safety.confirm_mass_delete") _ _
                        (λ k.
                          Good-or_bad (parse_bool val) _
                            (λ a. with_others c _ refl refl refl refl v))
                        (λ n.
                          Good-if (is "safety.confirm_over") _ _
                            (λ k.
                              Good-or_bad (atoi val) _ (λ a. with_others c _ refl refl refl refl v))
                            (λ n.
                              Good-if (is "workers") _ _
                                (λ k.
                                  Good-if (text_eq val (codes "auto")) _ _ (λ a. Good-auto c v)
                                    (λ m. Good-set_workers (atoi val) c v))
                                (λ n.
                                  Good-if (is "max_inflight") _ _
                                    (λ k.
                                      Good-or_bad size _
                                        (λ a. with_others c _ refl refl refl refl v))
                                    (λ n.
                                      Good-if (is "block_size") _ _
                                        (λ k. Good-set_block_size size c v)
                                        (λ n.
                                          Good-if (is "small_file") _ _
                                            (λ k.
                                              Good-or_bad size _
                                                (λ a. with_others c _ refl refl refl refl v))
                                            (λ n.
                                              Good-if (is "ssh") _ _
                                                (λ k. with_others c _ refl refl refl refl v)
                                                (λ n.
                                                  Good-if (is "remote_bin") _ _
                                                    (λ k. with_others c _ refl refl refl refl v)
                                                    (λ n. tt))))))))))))
