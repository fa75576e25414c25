-- ===== src/EventLoop/Residue.antt =====
-- eventloop.go: the loop of closeConn that sends what is left in the outbound buffer.
use wsgnet.Prelude.{
  ℕ, zero, suc, ◌≡◌, refl, ap, ◌∙◌, false, Option, none, some, List, [], ◌∷◌, ◌++◌, take, pos,
  arith,
}
use wsgnet.Errors.{Error}
use wsgnet.LinkedList.Peeking.{flatten}
use wsgnet.LinkedList.Defs as linked
use wsgnet.Elastic.Buffer.{Buffer}
use wsgnet.Elastic.Buffer as elastic
use wsgnet.Elastic.Storing.{Stores}
use wsgnet.Elastic.Showing.{peek-Stores}
use wsgnet.Elastic.Taking.{discard-Stores}
use wsgnet.Conn.Outbound.{iov_max}
use wsgnet.Conn.Flushing.{flatten-take}
use wsgnet.EventLoop.{Env}
use wsgnet.EventLoop.Closing.{send_residue}

no_bytes : (xs ys : List ℕ) → xs ++ ys ≡ [] → xs ≡ []
no_bytes [] ys e = refl
no_bytes (x ∷ xs) ys e = absurd cc

not_empty : (out : Buffer) → linked.is_empty out.list_buffer ≡ false → elastic.is_empty out ≡ false
unfolding elastic.is_empty
not_empty out e = ground (arith, e)

discards_no_node : (out : Buffer) → (elastic.discard out (pos 0)).2.list_buffer ≡ out.list_buffer
unfolding elastic.discard
discards_no_node out = ground arith

module _ {W App : Type 0} (env : Env W App) where
  residue_round :
      (fuel fd : ℕ) (out : Buffer) (w w' : W) (iov : List (List ℕ))
      → elastic.is_empty out ≡ false
      → elastic.peek out (pos 0) ≡ some iov
      → env.send fd w (flatten (take iov_max iov)) ≡ (0, none, w')
      → send_residue env (suc fuel) fd out w
        ≡ send_residue env fuel fd (elastic.discard out (pos 0)).2 w'
  unfolding send_residue
  residue_round fuel fd out w w' iov e f g =
      rw (e, f, send_residue)
        (ap {A = ℕ × Option Error × W} {B = Option (Buffer × W)}
          (λ r. elim r.1 [
            | some err ↦ some (out, r.2)
            | none ↦ send_residue env fuel fd (elastic.discard out (pos r.0)).2 r.2
          ])
          g)

  -- A list of nodes that holds no bytes, as ReadFrom leaves it behind a Read of no bytes, is never
  -- sent: where writev of nothing gives 0 and no error, no number of rounds is enough for the loop of
  -- closeConn.
  pub residue_stuck :
      (fuel fd : ℕ) (out : Buffer) (w : W)
      → Stores out []
      → linked.is_empty out.list_buffer ≡ false
      → ((w : W) → (w' : W) × (env.send fd w [] ≡ (0, none, w')))
      → send_residue env fuel fd out w ≡ none
  unfolding send_residue
  residue_stuck zero fd out w st e nothing = ground (arith, not_empty out e)
  residue_stuck (suc fuel) fd out w st e nothing =
      let (iov, shown, rest, same, enough) = peek-Stores out (pos 0) st in
      let (more, begins) = flatten-take iov_max iov in
      let (w', sent) = nothing w in
      residue_round fuel fd out w w' iov (not_empty out e) shown
        (ap (env.send fd w) (no_bytes _ more (begins ∙ no_bytes _ rest same)) ∙ sent)
      ∙ residue_stuck fuel fd (elastic.discard out (pos 0)).2 w' (discard-Stores out (pos 0) st).1
          (ap linked.is_empty (discards_no_node out) ∙ e) nothing
