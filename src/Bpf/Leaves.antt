-- ===== src/Bpf/Leaves.antt =====
-- Running the code of the single predicates of pkg/bpf/bpf.go.
use goscapy.Base.{length, ok, ℕ, ◌≤◌, ◌≡◌, Bool, Option, List, arith}
use goscapy.Bpf.Assembler.{Instruction, Assembler, emit_load_abs, resolve}
use goscapy.Bpf.Predicates.{
  Direction, dir_any, dir_src, dir_dst, port_pred, guard_ether_type, guard_proto, emit_host,
  emit_port, emit,
}
use goscapy.Bpf.Machine.{Machine, host_matches, port_matches, matches}
use goscapy.Bpf.Grows.{
  push-Grows, guard_ether_type-Grows, guard_proto-Grows, match_or_fall-Grows, fail_or_fall-Grows,
  emit_port-Grows,
}
use goscapy.Bpf.Runs.{
  Inside, Inside-back, ends, verdict_at, load_abs-runs, load_ind-runs, load_mem_shift-runs,
}
use goscapy.Bpf.Guards.{
  Ends, Leads, last_jump-runs, match_or_fall-Ends, fail_or_fall-Ends, guard_ether_type-Ends,
  guard_proto-Ends,
}

module _ (vm : Machine) (pkt : List ℕ) (whole : Assembler) (out : List Instruction)
    (resolved : resolve whole ≡ ok out) where
  abbrev Here : Assembler → Option Bool → (won lost : ℕ) → Type 0
  Here = Ends vm pkt whole out resolved

  abbrev To : (l verdict : ℕ) → Type 0
  To = Leads vm pkt whole out resolved

  pub emit_host-Ends :
      {base : ℕ} (dir : Direction) (ip t f won lost : ℕ) (a : Assembler)
      → base ≤ a.next_lbl
      → Inside base (emit_host dir ip t f a) whole
      → To t won
      → To f lost
      → Here a (host_matches dir ip pkt) won lost
  unfolding emit_host
  emit_host-Ends dir_src ip t f won lost a low inside to_won to_lost =
      load_abs-runs vm pkt whole out resolved 26 4 a _ won lost
        (Inside-back (push-Grows _ _) inside)
        (last_jump-runs vm pkt whole out resolved ip t f won lost _ inside to_won to_lost)
  emit_host-Ends dir_dst ip t f won lost a low inside to_won to_lost =
      load_abs-runs vm pkt whole out resolved 30 4 a _ won lost
        (Inside-back (push-Grows _ _) inside)
        (last_jump-runs vm pkt whole out resolved ip t f won lost _ inside to_won to_lost)
  emit_host-Ends dir_any ip t f won lost a low inside to_won to_lost =
      let second = Inside-back (push-Grows _ _) inside in
      let first = Inside-back (push-Grows _ _) second in
      load_abs-runs vm pkt whole out resolved 26 4 a _ won lost
        (Inside-back (match_or_fall-Grows ip t _) first)
        λ v x. match_or_fall-Ends vm pkt whole out resolved ip t won lost _ _ low first to_won v x (
          load_abs-runs vm pkt whole out resolved 30 4 _ _ won lost second
            (last_jump-runs vm pkt whole out resolved ip t f won lost _ inside to_won to_lost) v x)

  emit_port-Ends :
      {base : ℕ} (dir : Direction) (port t f won lost : ℕ) (a : Assembler)
      → base ≤ a.next_lbl
      → Inside base (emit_port dir port t f a) whole
      → To t won
      → To f lost
      → (r x : ℕ)
      → verdict_at vm pkt whole out resolved r x (length a.ins)
        ≡ ends (port_matches dir port pkt x) won lost
  unfolding emit_port
  emit_port-Ends dir_src port t f won lost a low inside to_won to_lost r x =
      load_ind-runs vm pkt whole out resolved 14 2 a _ won lost x
        (Inside-back (push-Grows _ _) inside)
        (λ v.
          last_jump-runs vm pkt whole out resolved port t f won lost _ inside to_won to_lost v x)
        r
  emit_port-Ends dir_dst port t f won lost a low inside to_won to_lost r x =
      load_ind-runs vm pkt whole out resolved 16 2 a _ won lost x
        (Inside-back (push-Grows _ _) inside)
        (λ v.
          last_jump-runs vm pkt whole out resolved port t f won lost _ inside to_won to_lost v x)
        r
  emit_port-Ends dir_any port t f won lost a low inside to_won to_lost r x =
      let second = Inside-back (push-Grows _ _) inside in
      let first = Inside-back (push-Grows _ _) second in
      load_ind-runs vm pkt whole out resolved 14 2 a _ won lost x
        (Inside-back (match_or_fall-Grows port t _) first)
        (λ v.
          match_or_fall-Ends vm pkt whole out resolved port t won lost _ _ low first to_won v x (
            load_ind-runs vm pkt whole out resolved 16 2 _ _ won lost x second
              (λ w.
                last_jump-runs vm pkt whole out resolved port t f won lost _ inside to_won to_lost w
                  x)
              v))
        r

  pub port_pred-Ends :
      {base : ℕ} (dir : Direction) (proto port t f won lost : ℕ) (a : Assembler)
      → base ≤ a.next_lbl
      → Inside base (emit (port_pred dir proto port) t f a) whole
      → To t won
      → To f lost
      → Here a (matches (port_pred dir proto port) pkt) won lost
  unfolding emit matches
  port_pred-Ends {base} dir proto port t f won lost a low inside to_won to_lost =
      let typed = guard_ether_type 0x0800 f a in
      let known = guard_proto proto f (emit_load_abs 23 1 typed) in
      let g1 = guard_ether_type-Grows 0x0800 f a in
      let g2 = guard_proto-Grows proto f (emit_load_abs 23 1 typed) in
      let i4 = Inside-back (emit_port-Grows dir port t f _) inside in
      let i3 = Inside-back (push-Grows _ _) i4 in
      let i2 = Inside-back (fail_or_fall-Grows 0x1fff f _) i3 in
      let i1 = Inside-back (push-Grows _ _) i2 in
      let i0 = Inside-back g2 i1 in
      let low1 : base ≤ typed.next_lbl = omega (arith, low, g1.more_labels) in
      let low2 : base ≤ known.next_lbl = omega (arith, low1, g2.more_labels) in
      guard_ether_type-Ends vm pkt whole out resolved f won lost a _ low
        (Inside-back (push-Grows _ _) i0) to_lost
        (load_abs-runs vm pkt whole out resolved 23 1 typed _ won lost i0 (
          guard_proto-Ends vm pkt whole out resolved proto f won lost _ _ low1 i1 to_lost (
            load_abs-runs vm pkt whole out resolved 20 2 known _ won lost i2 (
              fail_or_fall-Ends vm pkt whole out resolved 0x1fff f won lost _ _ low2 i3 to_lost (
                load_mem_shift-runs vm pkt whole out resolved 14 _ _ won lost i4 (λ v r.
                  emit_port-Ends dir port t f won lost _
                    (omega (
                      arith,
                      low2,
                      (fail_or_fall-Grows 0x1fff f (emit_load_abs 20 2 known)).more_labels,
                    ))
                    inside to_won to_lost r _))))))
