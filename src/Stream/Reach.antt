-- ===== src/Stream/Reach.antt =====
-- Where the runs of a socket stream lead.
use libreactor_refactor.Prelude.{
  ℕ, true, some, [], ◌∷◌, ◌++◌, length, ◌≡◌, refl, sym, ap, ◌∙◌, arith, append-nil, length-append,
}
use mathlib.Core.Path.{subst}
use mathlib.Core.Option.{some_inj}
use libreactor_refactor.Memory.{Memory}
use libreactor_refactor.Buffer.Laws.{size-data}
use libreactor_refactor.Buffer.{Buffer, buffer_data, buffer_size, buffer_empty}
use libreactor_refactor.Reactor.{Enter}
use libreactor_refactor.Reactor.Ready.{Surroundings}
use libreactor_refactor.Stream.Output.{stream_flushed}
use libreactor_refactor.Stream.Run.{Action, World, step, IsAllowed, IsFlowing}
use libreactor_refactor.Stream.Steps.{step-IsFlowing}

module _ (chunk : ℕ → ℕ) (enter : Enter) (address : Buffer → ℕ) (self send_callback : ℕ) where
  -- The worlds that allowed actions lead to.
  pub data Reaches : World → World → Type 0 where
    here : {w : World} → Reaches w w
    after :
        {w v u : World} (a : Action)
        → IsAllowed chunk enter address self send_callback a w
        → step chunk enter address self send_callback a w ≡ some v
        → Reaches v u
        → Reaches w u

  module _ (around : Surroundings chunk enter) where
    Reaches-IsFlowing :
        {w u : World}
        → IsFlowing chunk enter address self send_callback around w
        → Reaches w u
        → IsFlowing chunk enter address self send_callback around u
    Reaches-IsFlowing f here = f
    Reaches-IsFlowing {w} f (after a ok e rest) =
        let (v, run, g) = step-IsFlowing chunk enter address self send_callback around a w f ok in
        Reaches-IsFlowing
          (subst (IsFlowing chunk enter address self send_callback around)
            (some_inj.0 (sym run ∙ e)) g)
          rest

    -- Wherever allowed actions lead a socket stream: if `stream_flushed` says so, the kernel
    -- took just what was written, in this order.
    pub Reaches-sent :
        (w u : World)
        → IsFlowing chunk enter address self send_callback around w
        → Reaches w u
        → stream_flushed u.stream ≡ true
        → u.sent ≡ u.written
    unfolding stream_flushed buffer_empty buffer_size
    Reaches-sent w u f r h =
        let g = (Reaches-IsFlowing f r).flows in
        let o = u.stream.output in
        let first : o.bytes.size ≡ 0 = ground (arith, h) in
        let second : o.next.size ≡ 0 = ground (arith, h) in
        let no_bytes = size-data o.bytes g.bytes_valid ∙ ap length g.bytes in
        let no_rest : g.rest ≡ [] =
          nothing g.rest (omega (arith, no_bytes, first, length-append g.gone g.rest)) in
        let no_next : buffer_data o.next ≡ [] =
          nothing (buffer_data o.next) (omega (arith, size-data o.next g.next_valid, second)) in
        sym (
          g.order
          ∙ ap (λ (l : Memory). u.sent ++ (l ++ buffer_data o.next)) no_rest
          ∙ ap (λ (l : Memory). u.sent ++ l) no_next
          ∙ append-nil u.sent)
      where
        nothing : (l : Memory) → length l ≡ 0 → l ≡ []
        nothing [] e = refl
        nothing (c ∷ l) e = absurd (omega arith)
