-- ===== src/Hetzner/Http/Once.antt =====
-- `Do` of an `http.Client` that takes every response as it is, as internal/hetzner/client.go wants it.
use hetdns.Prelude.{ℕ, suc, ◌≡◌, refl, Option, none, some, List, [], ◌∷◌, arith}
use hetdns.Hetzner.Env.{Request, Response, World}
use hetdns.Hetzner.Http.{
  HttpClient, Redirect, follow, refuse, on_policy, use_last_response, Transport, Exchange,
  on_redirect, on_response, do_request,
}

module _ (transport : Transport) (http : HttpClient)
    (last : (next : Request) (via : List Request)
      → http.check_redirect next via ≡ use_last_response) where
  policy_made :
      (p : Redirect) (r : Request) (took : ℕ) (response : Response) (followed : Exchange)
      → p ≡ use_last_response
      → (on_policy p r took response followed).made ≡ r ∷ []
  unfolding on_policy
  policy_made follow r took response followed e = absurd (ground (arith, e))
  policy_made use_last_response r took response followed e = refl
  policy_made (refuse m) r took response followed e = refl

  redirect_made :
      (r : Request) (took : ℕ) (response : Response) (o : Option Request)
      (rest : Request → Exchange)
      → (on_redirect transport http r [] took response o rest).made ≡ r ∷ []
  unfolding on_redirect
  redirect_made r took response none rest = refl
  redirect_made r took response (some next) rest =
      policy_made _ r took response _ (last next (r ∷ []))

  response_made :
      (r : Request) (took : ℕ) (o : Option Response) (rest : Request → Exchange)
      → (on_response transport http r [] took o rest).made ≡ r ∷ []
  unfolding on_response
  response_made r took none rest = refl
  response_made r took (some response) rest =
      redirect_made r took response (transport.redirected r response) rest

  -- It makes no request but the one that it is given.
  pub made_once :
      (n : ℕ) (v : World) (r : Request) → (do_request transport http (suc n) [] v r).made ≡ r ∷ []
  unfolding do_request
  made_once n v r = response_made r _ (transport.round_trip v r).1 _
