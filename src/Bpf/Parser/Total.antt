-- ===== src/Bpf/Parser/Total.antt =====
-- The parser of pkg/bpf/bpf.go on every list of tokens.
use goscapy.Base.{
  Error, Bool, true, false, Returns->>=, ltb, ◌==◌, if◌then◌else◌, Bool-cases, length, get_or,
  unsupported, Outcome, ok, err, panic, stuck, ◌>>=◌, Returns, Returns->>=, ℕ, zero, suc, ◌+◌, ◌-◌,
  ◌*◌, ◌≤◌, String, str_eq, ◌≡◌, refl, inl, inr, true, ◌&&◌, ◌||◌, List, [], ◌∷◌, arith,
}
use goscapy.Bpf.Predicates.{Predicate, and_pred, or_pred, assemble_program}
use goscapy.Bpf.Assembler.{
  Instruction, AsmInsn, plain, jump, skip_fits, resolve_insn, resolve_from, resolve,
}
use goscapy.Bpf.Parser.{
  Readers, is_primary_start, Parsed, parse_or, or_loop, parse_and, and_loop, parse_not,
  parse_primary, enough, parse_all, compile_instructions,
}
use goscapy.Bpf.Parser.Sound.{
  Sound, Sound-ok, Sound-err, Sound-if, Sound-elim, Sound-bind, inside, parse_predicate-Sound,
}

Returns-if :
    (b : Bool) (insn : Instruction) (why : Error) → Returns (if b then ok insn else err why)
Returns-if true insn why = inl (insn, refl)
Returns-if false insn why = inr (why, refl)

resolve_insn-Returns :
    (label_pos : ℕ → ℕ) (i : ℕ) (insn : AsmInsn) → Returns (resolve_insn label_pos i insn)
unfolding resolve_insn
resolve_insn-Returns label_pos i (plain insn) = inl (insn, refl)
resolve_insn-Returns label_pos i (jump test val jt jf) =
    Returns-if (skip_fits i (label_pos jt) && skip_fits i (label_pos jf)) _ _

resolve_from-Returns :
    (label_pos : ℕ → ℕ) (i : ℕ) (ins : List AsmInsn) → Returns (resolve_from label_pos i ins)
unfolding resolve_from
resolve_from-Returns label_pos i [] = inl ([], refl)
resolve_from-Returns label_pos i (insn ∷ rest) =
    Returns->>= (resolve_insn label_pos i insn) _ (resolve_insn-Returns label_pos i insn)
      λ resolved.
        Returns->>= (resolve_from label_pos (suc i) rest) _
          (resolve_from-Returns label_pos (suc i) rest) λ others. inl (resolved ∷ others, refl)

assemble_program-Returns : (pred : Predicate) → Returns (assemble_program pred)
unfolding assemble_program resolve
assemble_program-Returns pred = resolve_from-Returns _ 0 _

compiled-Returns :
    (toks : List String) (made : Outcome (List Instruction))
    → Returns made
    → Returns (elim toks [ [] ↦ ok [] | _ ∷ _ ↦ made ])
compiled-Returns [] made h = inl ([], refl)
compiled-Returns (tok ∷ toks) made h = h

module _ (readers : Readers) (toks : List String) where
  weaken :
      (from later : ℕ) (r : Parsed)
      → from ≤ later
      → Sound readers toks later r
      → Sound readers toks from r
  unfolding Sound
  weaken from later (ok (pred, next)) h (low, high) = (omega arith, high)
  weaken from later (err why) h sound = tt
  weaken from later panic h sound = sound
  weaken from later stuck h sound = sound

  -- Fuel for each method at `left` tokens before the end.
  abbrev Fed : (fuel rank at : ℕ) → Type 0
  Fed fuel rank at = (8 * (length toks - at) + rank ≤ fuel) × (at ≤ length toks)

  -- Every method, with fuel for what is left, ends soundly; all but the loops take a token.
  record Methods (fuel : ℕ) : Type 0 where
    of_or : (at : ℕ) → Fed fuel 6 at → Sound readers toks (suc at) (parse_or readers toks fuel at)
    of_or_loop :
        (pred : Predicate) (at : ℕ)
        → Fed fuel 5 at
        → Sound readers toks at (or_loop readers toks fuel pred at)
    of_and : (at : ℕ) → Fed fuel 4 at → Sound readers toks (suc at) (parse_and readers toks fuel at)
    of_and_loop :
        (pred : Predicate) (at : ℕ)
        → Fed fuel 3 at
        → Sound readers toks at (and_loop readers toks fuel pred at)
    of_not : (at : ℕ) → Fed fuel 2 at → Sound readers toks (suc at) (parse_not readers toks fuel at)
    of_primary :
        (at : ℕ) → Fed fuel 1 at → Sound readers toks (suc at) (parse_primary readers toks fuel at)

  methods : (fuel : ℕ) → Methods fuel
  unfolding parse_or or_loop parse_and and_loop parse_not parse_primary is_primary_start
  methods zero = record {
    of_or = λ at fed. absurd (omega (arith, fed));
    of_or_loop = λ pred at fed. absurd (omega (arith, fed));
    of_and = λ at fed. absurd (omega (arith, fed));
    of_and_loop = λ pred at fed. absurd (omega (arith, fed));
    of_not = λ at fed. absurd (omega (arith, fed));
    of_primary = λ at fed. absurd (omega (arith, fed));
  }
  methods (suc fuel) =
      let ih = methods fuel in
      record {
        of_or = λ at fed.
            Sound-bind readers toks (suc at) (suc at) _ _ (ih.of_and at (omega (arith, fed), fed.1))
              λ left next low high.
                weaken (suc at) next _ low (ih.of_or_loop left next (omega (arith, fed), high));
        of_or_loop = λ left at fed.
            Sound-elim readers toks at
              (str_eq (get_or toks at "") "or" || str_eq (get_or toks at "") "||") _ _
              (λ more.
                let below =
                  inside readers toks (λ t. str_eq t "or" || str_eq t "||") at refl more in
                Sound-bind readers toks (suc (at + 1)) at _ _
                  (ih.of_and (at + 1) (omega (arith, fed), omega arith))
                  λ right next low high.
                    weaken at next _ (omega arith)
                      (ih.of_or_loop (or_pred left right) next (omega (arith, fed), high)))
              (λ _. Sound-ok readers toks at _ _ (omega arith) fed.1);
        of_and = λ at fed.
            Sound-bind readers toks (suc at) (suc at) _ _ (ih.of_not at (omega (arith, fed), fed.1))
              λ left next low high.
                weaken (suc at) next _ low (ih.of_and_loop left next (omega (arith, fed), high));
        of_and_loop = λ left at fed.
            Sound-elim readers toks at
              (str_eq (get_or toks at "") "and" || str_eq (get_or toks at "") "&&") _ _
              (λ more.
                let below =
                  inside readers toks (λ t. str_eq t "and" || str_eq t "&&") at refl more in
                Sound-bind readers toks (suc (at + 1)) at _ _
                  (ih.of_not (at + 1) (omega (arith, fed), omega arith))
                  λ right next low high.
                    weaken at next _ (omega arith)
                      (ih.of_and_loop (and_pred left right) next (omega (arith, fed), high)))
              (λ _.
                Sound-elim readers toks at (is_primary_start (get_or toks at "")) _ _
                  (λ more.
                    let below = inside readers toks is_primary_start at refl more in
                    Sound-bind readers toks (suc at) at _ _
                      (ih.of_not at (omega (arith, fed), fed.1))
                      λ right next low high.
                        weaken at next _ (omega arith)
                          (ih.of_and_loop (and_pred left right) next (omega (arith, fed), high)))
                  (λ _. Sound-ok readers toks at _ _ (omega arith) fed.1));
        of_not = λ at fed.
            Sound-elim readers toks (suc at)
              (str_eq (get_or toks at "") "not" || str_eq (get_or toks at "") "!") _ _
              (λ more.
                let below =
                  inside readers toks (λ t. str_eq t "not" || str_eq t "!") at refl more in
                Sound-bind readers toks (suc (at + 1)) (suc at) _ _
                  (ih.of_not (at + 1) (omega (arith, fed), omega arith))
                  λ inner next low high. Sound-ok readers toks (suc at) _ _ (omega arith) high)
              (λ _. ih.of_primary at (omega (arith, fed), fed.1));
        of_primary = λ at fed.
            Sound-elim readers toks (suc at) (str_eq (get_or toks at "") "(") _ _
              (λ more.
                let below = inside readers toks (λ t. str_eq t "(") at refl more in
                Sound-bind readers toks (suc (at + 1)) (suc at) _ _
                  (ih.of_or (at + 1) (omega (arith, fed), omega arith))
                  λ inner next low high.
                    Sound-if readers toks (suc at) (str_eq (get_or toks next "") ")") _ _
                      (λ closed.
                        Sound-ok readers toks (suc at) inner (next + 1) (omega arith)
                          (omega (arith, inside readers toks (λ t. str_eq t ")") next refl closed)))
                      (λ _. Sound-err readers toks _ _))
              (λ _. parse_predicate-Sound readers toks at fed.1);
      }

  -- The end of `CompileInstructions`' parsing.
  abbrev all_read : Predicate × ℕ → Outcome Predicate
  all_read (pred, at) =
      if at == length toks then ok pred else if ltb at (length toks) then err unsupported else panic

  all_read-Returns : (first : Parsed) → Sound readers toks 1 first → Returns (first >>= all_read)
  unfolding Sound
  all_read-Returns (ok (pred, next)) (low, high) = elim (Bool-cases (next == length toks)) [
    | inl whole ↦ inl (pred, rw whole refl)
    | inr some_left ↦
        let below : ltb next (length toks) ≡ true = ground arith in
        inr (unsupported, rw (some_left, below) refl)
  ]
  all_read-Returns (err why) h = inr (why, refl)
  all_read-Returns panic h = absurd (omega arith)
  all_read-Returns stuck h = absurd (omega arith)

  pub parse_all-Returns : Returns (parse_all readers toks)
  unfolding parse_all
  parse_all-Returns =
      all_read-Returns (parse_or readers toks (enough readers toks) 0)
        ((methods (enough readers toks)).of_or 0 (omega arith, omega arith))

  -- Compiling any tokens, with readers that refuse the empty text, returns a program or an error.
  -- The parser does not run out of fuel, and no error's text reads past the tokens.
  pub compile_instructions-Returns : Returns (compile_instructions readers toks)
  unfolding compile_instructions
  compile_instructions-Returns =
      compiled-Returns toks (parse_all readers toks >>= assemble_program)
        (Returns->>= (parse_all readers toks) _ parse_all-Returns assemble_program-Returns)
