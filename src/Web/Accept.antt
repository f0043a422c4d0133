-- ===== src/Web/Accept.antt =====
-- What an accepted client leaves behind, and whether the server goes on listening.
use jnet_lib.Base.{
  ◌≡◌, ◌⊎◌, refl, inl, inr, true, false, Option, none, some, [], ◌∷◌, if◌then◌else◌, arith,
  Bool-cases,
}
use jnet_lib.Errors.{is_error}
use jnet_lib.Web.{
  Context, StreamType, is_https, accepting, make, handshake, Server, notify, Completion, on_accept,
}
use jnet_lib.Web.Counted.{
  IsCounted, IsQuiet, IsSound, live, notify-IsCounted, close-IsCounted, handshake-IsCounted,
  check_and_delete-Settles,
}

-- The next accept is started, and its context is sound.
abbrev pub Listens : Option Context → Type 0
Listens none = ⊥
Listens (some c) = IsSound c × (c.pending ≡ accepting ∷ [])

module _ (s : Server) (t : StreamType) (quiet : IsQuiet s) where
  fresh-IsSound : IsSound (record (make t) { ref = 1; pending = accepting ∷ [] })
  unfolding make
  fresh-IsSound =
      live (record { count = refl; flag = omega arith; alive = refl; unclosed = refl })
        (omega arith)

  abbrev next_context : Context
  next_context = record (make t) { ref = 1; pending = accepting ∷ [] }

  greet-IsCounted :
      {c : Context} → IsCounted 1 c → IsCounted 1 (if is_https t then handshake c else c)
  greet-IsCounted {c} w = elim (Bool-cases (is_https t)) [
    | inl q ↦ rw q (handshake-IsCounted w)
    | inr q ↦ rw q w
  ]

  -- An accept that fails deletes the waiting context and starts no other accept; one that
  -- succeeds leaves a counted connection sound (if cbOnClosed starts nothing), and the next
  -- accept is started exactly when the user callback did not refuse the client.
  pub on_accept_lem :
      (d : Completion) (c : Context)
      → IsCounted 1 c
      → ((is_error d.ec ≡ true) × (on_accept s t d c ≡ some (record c { deleted = true }, none)))
        ⊎ ((is_error d.ec ≡ false)
            × ((c' : Context) × (fresh : Option Context) × (on_accept s t d c ≡ some (c', fresh))
                × IsSound c'
                × ((notify s.on_connected c).1 ≡ true → fresh ≡ none)
                × ((notify s.on_connected c).1 ≡ false → Listens fresh)))
  unfolding on_accept
  on_accept_lem d c v = elim (Bool-cases (is_error d.ec)) [
    | inl bad ↦ inl (bad, rw bad)
    | inr good ↦
        let w = notify-IsCounted s.on_connected v in
        elim (Bool-cases (notify s.on_connected c).1) [
          | inl refused ↦
              let k = check_and_delete-Settles s quiet (close-IsCounted w) in
              inr (good, (k.0, none, rw (good, refused, k.1), k.2, λ q. refl, λ q. cc))
          | inr served ↦
              let k = check_and_delete-Settles s quiet (greet-IsCounted w) in
              inr (
                good,
                (
                  k.0,
                  some next_context,
                  rw (good, served, k.1),
                  k.2,
                  λ q. cc,
                  λ q. (fresh-IsSound, refl),
                ),
              )
        ]
  ]
