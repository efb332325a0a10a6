-- ===== src/FifoServer/Fork/Tests.antt =====
-- A run of the parent of serverfork.c with two requests, and the theorem at it.
use unpvol.Base.{ℕ, zero, suc, ◌≡◌, refl, some, List, [], ◌∷◌, ◌++◌}
use unpvol.FifoServer.Once.Defs.{buf_size}
use unpvol.FifoServer.Whole.{flatten, AllOf}
use unpvol.FifoServer.Fork.Requests.{
  State, after_read, serve, serves, requests, opens, closes, Reach, start, later, requests_in_order,
}

abbrev copies : ℕ → ℕ → List ℕ
copies zero x = []
copies (suc n) x = x ∷ copies n x

-- Two clients send, one request is served, and both clients are gone.
abbrev two_sent : (s : State) × Reach 4096 s
unfolding after_read
two_sent = (
  _,
  later
      (later
        (later
          (later (later (later start opens) (requests (copies 64 1) refl refl))
            (requests (copies 64 2) refl refl))
          (serves refl))
        closes)
      closes,
)

requests_in_order_example :
    (waiting : List (List ℕ)) × (two_sent.0.written ≡ two_sent.0.children ++ waiting)
    × (two_sent.0.channel.bytes ≡ flatten waiting)
    × AllOf buf_size two_sent.0.children
    × ((xs : List ℕ) (xss : List (List ℕ))
        → waiting ≡ xs ∷ xss
        → (t : State) × (serve buf_size two_sent.0 ≡ some t)
          × (t.children ≡ two_sent.0.children ++ (xs ∷ [])))
    × (waiting ≡ [] → two_sent.0.channel.writers ≡ 0 → serve buf_size two_sent.0 ≡ some two_sent.0)
requests_in_order_example = requests_in_order two_sent.1

two_sent_one_served : two_sent.0.children ≡ copies 64 1 ∷ []
unfolding after_read
two_sent_one_served = refl
