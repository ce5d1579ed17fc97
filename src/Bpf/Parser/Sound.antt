-- ===== src/Bpf/Parser/Sound.antt =====
-- What the methods of pkg/bpf/bpf.go's parser that read no sub-expression return.
use goscapy.Base.{
  ltb, if◌then◌else◌, ltb→lt, ltb→le, Bool-cases, length, get_or, Error, unsupported, ok, err,
  panic, stuck, ◌>>=◌, ℕ, zero, suc, ◌+◌, ◌≤◌, ◌<◌, String, str_eq, ◌≡◌, refl, ap, inl, inr, Bool,
  true, false, not, ◌&&◌, Option, none, some, List, [], ◌∷◌, arith,
}
use goscapy.Fields.Addresses.{to4}
use goscapy.Bpf.Predicates.{Direction, Predicate, ether_type_pred, ip_proto_pred}
use goscapy.Bpf.Parser.{
  Readers, is_one_of, ether_type_for, proto_for, is_any, Parsed, direction_at, parse_host,
  parse_port_of, port_follows, parse_proto, parse_predicate,
}

module _ (readers : Readers) (toks : List String) where
  -- An error, or a position from `from` on within the tokens.
  unfoldable pub Sound : (from : ℕ) → Parsed → Type 0
  Sound from (ok (pred, next)) = (from ≤ next) × (next ≤ length toks)
  Sound from (err why) = Unit
  Sound from panic = 1 ≤ 0
  Sound from stuck = 1 ≤ 0

  pub Sound-ok :
      (from : ℕ) (pred : Predicate) (next : ℕ)
      → from ≤ next
      → next ≤ length toks
      → Sound from (ok (pred, next))
  unfolding Sound
  Sound-ok from pred next low high = (low, high)

  pub Sound-err : (from : ℕ) (why : Error) → Sound from (err why)
  unfolding Sound
  Sound-err from why = tt

  -- What every branch of a test gives, the test gives.
  pub Sound-if :
      (from : ℕ) (b : Bool) (p q : Parsed)
      → (b ≡ true → Sound from p)
      → (b ≡ false → Sound from q)
      → Sound from (if b then p else q)
  Sound-if from true p q on_true on_false = on_true refl
  Sound-if from false p q on_true on_false = on_false refl

  pub Sound-elim :
      (from : ℕ) (b : Bool) (p q : Parsed)
      → (b ≡ true → Sound from p)
      → (b ≡ false → Sound from q)
      → Sound from (elim b [ false ↦ q | true ↦ p ])
  Sound-elim from true p q on_true on_false = on_true refl
  Sound-elim from false p q on_true on_false = on_false refl

  Sound-option :
      {A : Type 0} (from : ℕ) (o : Option A) (why : Error) (next : A → Parsed)
      → ((a : A) → o ≡ some a → Sound from (next a))
      → Sound from (elim o [ none ↦ err why | some a ↦ next a ])
  Sound-option from none why next on = Sound-err from why
  Sound-option from (some a) why next on = on a refl

  Sound-port :
      (from : ℕ) (o : Option ℕ) (next : ℕ → Parsed)
      → ((n : ℕ) → o ≡ some n → Sound from (next n))
      → Sound from ((elim o [ none ↦ err unsupported | some n ↦ ok n ]) >>= next)
  Sound-port from none next on = Sound-err from unsupported
  Sound-port from (some n) next on = on n refl

  pub Sound-bind :
      (from to : ℕ) (first : Parsed) (next : Predicate × ℕ → Parsed)
      → Sound from first
      → ((pred : Predicate) (at : ℕ) → from ≤ at → at ≤ length toks → Sound to (next (pred, at)))
      → Sound to (first >>= next)
  unfolding Sound
  Sound-bind from to (ok (pred, at)) next (low, high) on = on pred at low high
  Sound-bind from to (err why) next h on = tt
  Sound-bind from to panic next h on = absurd (omega arith)
  Sound-bind from to stuck next h on = absurd (omega arith)

  get_or_past : (ts : List String) (at : ℕ) → length ts ≤ at → get_or ts at "" ≡ ""
  get_or_past [] at h = refl
  get_or_past (t ∷ ts) zero h = absurd (omega arith)
  get_or_past (t ∷ ts) (suc at) h = get_or_past ts at (omega arith)

  -- A token that an empty text is not stands within the tokens.
  pub inside :
      (test : String → Bool) (at : ℕ)
      → test "" ≡ false
      → test (get_or toks at "") ≡ true
      → at < length toks
  inside test at empty found = elim (Bool-cases (ltb at (length toks))) [
    | inl below ↦ ltb→lt _ _ below
    | inr past ↦ let none_there = ap test (get_or_past toks at (ltb→le _ _ past)) in cc
  ]

  inside_read :
      {A : Type 0} (read : String → Option A) (at : ℕ) (value : A)
      → read "" ≡ none
      → read (get_or toks at "") ≡ some value
      → at < length toks
  inside_read read at value empty found = elim (Bool-cases (ltb at (length toks))) [
    | inl below ↦ ltb→lt _ _ below
    | inr past ↦ let none_there = ap read (get_or_past toks at (ltb→le _ _ past)) in cc
  ]

  parse_host-Sound :
      (dir : Direction) (from at : ℕ) → from ≤ at → Sound from (parse_host readers toks dir at)
  unfolding parse_host
  parse_host-Sound dir from at low =
      Sound-option from (readers.parse_ip (get_or toks at "")) unsupported _ λ ip found.
        Sound-option from (to4 ip) unsupported _ λ ip4 short.
          Sound-ok from _ _ (omega arith)
            (omega (arith, inside_read readers.parse_ip at ip readers.parse_ip-empty found))

  parse_port_of-Sound :
      (dir : Direction) (proto from at : ℕ)
      → from ≤ at
      → Sound from (parse_port_of readers toks dir proto at)
  unfolding parse_port_of
  parse_port_of-Sound dir proto from at low =
      Sound-port from (readers.parse_uint16 (get_or toks at "")) _ λ n found.
        Sound-ok from _ _ (omega arith)
          (omega (arith, inside_read readers.parse_uint16 at n readers.parse_uint16-empty found))

  direction_at-bounds :
      (at : ℕ)
      → at ≤ length toks
      → (at ≤ (direction_at readers toks at).1) × ((direction_at readers toks at).1 ≤ length toks)
  unfolding direction_at
  direction_at-bounds at h = elim (Bool-cases (str_eq (get_or toks at "") "src")) [
    | inl src ↦ rw src (omega arith, omega (arith, inside (λ t. str_eq t "src") at refl src))
    | inr other ↦ rw other (elim (Bool-cases (str_eq (get_or toks at "") "dst")) [
      | inl dst ↦ rw dst (omega arith, omega (arith, inside (λ t. str_eq t "dst") at refl dst))
      | inr neither ↦ rw neither (omega arith, h)
    ])
  ]

  parse_proto-Sound :
      (dir : Direction) (tok : String) (from at : ℕ)
      → from ≤ at
      → at ≤ length toks
      → Sound from (parse_proto readers toks dir tok at)
  unfolding parse_proto
  parse_proto-Sound dir tok from at low high =
      let (on, _) = direction_at-bounds at high in
      Sound-if from (not (str_eq tok "icmp") && port_follows readers toks at) _ _
        (λ _.
          parse_port_of-Sound (direction_at readers toks at).0 (proto_for tok) from
            ((direction_at readers toks at).1 + 1) (omega (arith, on)))
        (λ _.
          Sound-if from (not (is_any dir)) _ _ (λ _. Sound-err _ _)
            (λ _. Sound-ok from (ip_proto_pred (proto_for tok)) at low high))

  pub parse_predicate-Sound :
      (at : ℕ) → at ≤ length toks → Sound (suc at) (parse_predicate readers toks at)
  unfolding parse_predicate
  parse_predicate-Sound at high =
      let (on, top) = direction_at-bounds at high in
      let start = (direction_at readers toks at).1 in
      let dir = (direction_at readers toks at).0 in
      let tok = get_or toks start "" in
      let ether = is_one_of ("ip" ∷ "ip6" ∷ "arp" ∷ "rarp" ∷ []) in
      let proto = is_one_of ("tcp" ∷ "udp" ∷ "icmp" ∷ []) in
      Sound-if (suc at) (str_eq tok "host") _ _
        (λ _. parse_host-Sound dir (suc at) (start + 1) (omega (arith, on)))
        (λ _.
          Sound-if (suc at) (str_eq tok "port") _ _
            (λ _. parse_port_of-Sound dir 0 (suc at) (start + 1) (omega (arith, on)))
            (λ _.
              Sound-if (suc at) (ether tok) _ _
                (λ found.
                  Sound-if (suc at) (not (is_any dir)) _ _ (λ _. Sound-err _ _)
                    (λ _.
                      Sound-ok (suc at) (ether_type_pred (ether_type_for tok)) (start + 1)
                        (omega (arith, on)) (omega (arith, inside ether start refl found))))
                (λ _.
                  Sound-if (suc at) (proto tok) _ _
                    (λ found.
                      parse_proto-Sound dir tok (suc at) (start + 1) (omega (arith, on))
                        (omega (arith, inside proto start refl found)))
                    (λ _. Sound-err _ _))))
