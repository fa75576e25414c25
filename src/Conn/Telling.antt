-- ===== src/Conn/Telling.antt =====
-- connection.go and eventloop.go: what an error of the socket leads to.
use wsgnet.Prelude.{◌≡◌, ◌≢◌, refl, ap, Option, none, some}
use wsgnet.Errors.{Error, again}
use wsgnet.Conn.Outbound.{Next, close}

-- Without an error the code goes on with `fine`, on EAGAIN with `retry`, and on any other error it
-- closes the connection for it.
abbrev pub Told : Option Error → Next → Next → Next → Type 0
Told err fine retry next =
    (err ≡ none → next ≡ fine)
    × (err ≡ some again → next ≡ retry)
    × ((e : Error) → e ≢ again → err ≡ some e → next ≡ close e)

pub Told-none : {err : Option Error} {fine retry : Next} → err ≡ none → Told err fine retry fine
Told-none q = ((λ _. refl), (λ r. absurd cc), (λ e n r. absurd cc))

pub Told-again :
    {err : Option Error} {fine retry : Next} → err ≡ some again → Told err fine retry retry
Told-again q = ((λ r. absurd cc), (λ _. refl), (λ e n r. absurd (n cc)))

pub Told-some :
    {err : Option Error} {fine retry : Next} (e : Error)
    → e ≢ again
    → err ≡ some e
    → Told err fine retry (close e)
Told-some e n q = ((λ r. absurd cc), (λ r. absurd (n cc)), (λ f m r. ap close cc))
