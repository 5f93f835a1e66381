-- ===== src/Stream/Named.antt =====
-- The bytes that an entry of the ring names, by its address and its length.
use libreactor_refactor.Prelude.{
  ℕ, ◌+◌, ◌-◌, ◌≤◌, true, Option, none, some, [], ◌++◌, length, take, drop, leb, if◌then◌else◌, ◌≡◌,
  sym, ap, ◌∙◌, arith, append_assoc,
}
use libreactor_refactor.Memory.{Memory}
use libreactor_refactor.Memory.Blocks.{front, take-pieces, drop-pieces}
use libreactor_refactor.Buffer.{Buffer, buffer_data}
use libreactor_refactor.Buffer.Laws.{IsValid, base-pieces}
use libreactor_refactor.Reactor.{Sqe}

-- The bytes in the block of a buffer.
unfoldable pub named : (Buffer → ℕ) → Buffer → Sqe → Memory
named address b e =
    if leb (address b) e.addr then take e.len (drop (e.addr - address b) b.base) else []

abbrev pub named_by : (Buffer → ℕ) → Buffer → Option Sqe → Memory
named_by address b request = elim request [ none ↦ [] | some e ↦ named address b e ]

-- An entry with the address behind the first bytes of a valid buffer names the next ones.
pub named-next :
    (address : Buffer → ℕ) (b : Buffer) (e : Sqe) (request : Option Sqe) (gone rest : Memory)
    → IsValid b
    → buffer_data b ≡ gone ++ rest
    → request ≡ some e
    → e.addr ≡ address b + length gone
    → e.len ≤ length rest
    → (v : Memory) × (rest ≡ named_by address b request ++ v)
unfolding named
named-next address b e request gone rest valid bytes there addr fits =
    let (u, v, split, ulen) = front rest e.len fits in
    let (spare, base, size, short) = base-pieces b gone rest valid bytes in
    let low : leb (address b) e.addr ≡ true = ground (arith, addr) in
    let offset : e.addr - address b ≡ length gone = omega (arith, addr) in
    let names : named address b e ≡ u = rw low (
      ap (λ (k : ℕ). take e.len (drop k b.base)) offset
      ∙ ap (λ (m : Memory). take e.len (drop (length gone) m)) base
      ∙ ap (take e.len) (drop-pieces gone (rest ++ spare))
      ∙ ap (λ (m : Memory). take e.len (m ++ spare)) split
      ∙ ap (take e.len) (append_assoc u v spare)
      ∙ ap (λ (k : ℕ). take k (u ++ (v ++ spare))) (sym ulen)
      ∙ take-pieces u (v ++ spare)) in
    (v, split ∙ ap (λ (m : Memory). m ++ v) (sym (ap (named_by address b) there ∙ names)))
