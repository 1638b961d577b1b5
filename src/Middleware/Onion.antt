-- ===== src/Middleware/Onion.antt =====
-- The order in which the middlewares see requests and responses.
use netspy.Base.{fun_ext, ◌≡◌, refl, ap, sym, ◌∙◌, List, [], ◌∷◌, ◌++◌, append_assoc, append-nil}
use netspy.Exceptions.{Response}
use netspy.Request.{Request}
use netspy.Middleware.{
  Sent, unchanged, replaced, answered, send_failed, Received, passed_on, sent_again, receive_failed,
  Middleware, Outgoing, download, short_cut, request_failed, call_request, go_on, process_request,
  call_response, hand_on, receive_all, reversed, process_response,
}

-- the inner chain, on what the outer one sends on
abbrev pub inwards : (Request → Outgoing) → Outgoing → Outgoing
inwards inner (download request) = inner request
inwards inner (short_cut response) = short_cut response
inwards inner request_failed = request_failed

go_on-inwards :
    (others inner : Request → Outgoing) (request : Request) (s : Sent)
    → go_on (λ r. inwards inner (others r)) request s ≡ inwards inner (go_on others request s)
go_on-inwards others inner request unchanged = refl
go_on-inwards others inner request (replaced r) = refl
go_on-inwards others inner request (answered response) = refl
go_on-inwards others inner request send_failed = refl

process_request-append :
    (outer inner : List Middleware) (request : Request)
    → process_request (outer ++ inner) request
      ≡ inwards (process_request inner) (process_request outer request)
unfolding process_request
process_request-append [] inner request = refl
process_request-append (m ∷ outer) inner request =
    ap (λ f. go_on f request (call_request m.on_request request))
      (fun_ext (process_request-append outer inner))
    ∙ go_on-inwards (process_request outer) (process_request inner) request
        (call_request m.on_request request)

hand_on_both :
    (others rest : Response → Received) (r : Received)
    → hand_on (λ x. hand_on rest (others x)) r ≡ hand_on rest (hand_on others r)
hand_on_both others rest (passed_on response) = refl
hand_on_both others rest (sent_again request) = refl
hand_on_both others rest receive_failed = refl

receive_all-append :
    (first then_ : List Middleware) (request : Request) (response : Response)
    → receive_all (first ++ then_) request response
      ≡ hand_on (receive_all then_ request) (receive_all first request response)
unfolding receive_all
receive_all-append [] then_ request response = refl
receive_all-append (m ∷ first) then_ request response =
    ap (λ f. hand_on f (call_response m.on_response request response))
      (fun_ext (receive_all-append first then_ request))
    ∙ hand_on_both (receive_all first request) (receive_all then_ request)
        (call_response m.on_response request response)

reversed-append :
    (front back : List Middleware) → reversed (front ++ back) ≡ reversed back ++ reversed front
unfolding reversed
reversed-append [] back = sym (append-nil (reversed back))
reversed-append (m ∷ front) back =
    ap (λ l. l ++ m ∷ []) (reversed-append front back)
    ∙ append_assoc (reversed back) (reversed front) (m ∷ [])

-- A chain of an outer and an inner part: the inner one sees the request that the outer one sends on, and is not
-- asked where the outer one answers itself or raises; the outer one sees the response that the inner one
-- passes on, and is not asked where the inner one sends a request round again or raises.
pub process_append :
    (outer inner : List Middleware) (request : Request) (response : Response)
    → (process_request (outer ++ inner) request
        ≡ inwards (process_request inner) (process_request outer request))
      × (process_response (outer ++ inner) request response
          ≡ hand_on (process_response outer request) (process_response inner request response))
unfolding process_response
process_append outer inner request response = (
  process_request-append outer inner request,
  ap (λ l. receive_all l request response) (reversed-append outer inner)
      ∙ receive_all-append (reversed inner) (reversed outer) request response,
)
