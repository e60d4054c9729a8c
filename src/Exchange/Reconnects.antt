-- ===== src/Exchange/Reconnects.antt =====
-- How often the feed of src/exchange/live_market_data_feed.cpp connects again.
use wall.Exchange.LiveFeed.{
  LiveMarketDataFeedController, SessionCall, connect, disconnect, disconnects, dropped,
  handle_disconnect, new_feed, reconnected, start, subscribe,
}
use wall.Prelude.{
  Bool, Bool-cases, List, String, [], arith, false, inc_u64, inl, inr, leb, refl, suc, true, zero,
  ℕ, ◌++◌, ◌+◌, ◌<◌, ◌^◌, ◌∷◌, ◌≡◌, ◌≤◌,
}

abbrev pub connects : List SessionCall → ℕ
connects [] = 0
connects (connect ∷ cs) = suc (connects cs)
connects (_ ∷ cs) = connects cs

connects-append : (xs ys : List SessionCall) → connects (xs ++ ys) ≡ connects xs + connects ys
connects-append [] ys = omega arith
connects-append (connect ∷ xs) ys = ground (arith, connects-append xs ys)
connects-append (disconnect ∷ xs) ys = connects-append xs ys
connects-append (subscribe ss ∷ xs) ys = connects-append xs ys

-- The controller is still connected, after so many reconnects.
pub record Survived (f : LiveMarketDataFeedController) (n : ℕ) (f' : LiveMarketDataFeedController)
    : Type 0 where
  pub still_connected : f'.connected ≡ true
  pub attempts : f'.reconnect_attempts ≡ f.reconnect_attempts + n
  pub connections : connects f'.session ≡ connects f.session + n

-- The controller has given up, after the reconnects that it had left.
pub record GivenUp (f f' : LiveMarketDataFeedController) : Type 0 where
  pub not_connected : f'.connected ≡ false
  pub attempts : f'.reconnect_attempts ≡ f.max_reconnect_attempts
  pub connections :
      connects f'.session + f.reconnect_attempts ≡ connects f.session + f.max_reconnect_attempts

connects-dropped :
    (f : LiveMarketDataFeedController) → connects (dropped f).session ≡ connects f.session
connects-dropped f = ground (arith, connects-append f.session (disconnect ∷ []))

connects-reconnected :
    (f : LiveMarketDataFeedController)
    → connects (reconnected (dropped f)).session ≡ suc (connects f.session)
connects-reconnected f = ground (
  arith,
  connects-append (f.session ++ (disconnect ∷ [])) (connect ∷ subscribe f.symbols ∷ []),
  connects-dropped f,
)

disconnects-Survived :
    (n : ℕ) (f : LiveMarketDataFeedController)
    → f.max_reconnect_attempts < 2 ^ 64
    → f.connected ≡ true
    → f.reconnect_attempts + n ≤ f.max_reconnect_attempts
    → ((disconnects n f).1 ≡ false) × Survived f n (disconnects n f).0
unfolding disconnects handle_disconnect
disconnects-Survived zero f b c h =
    (refl, record { still_connected = c; attempts = omega arith; connections = omega arith })
disconnects-Survived (suc n) f b c h =
    let go : leb f.max_reconnect_attempts f.reconnect_attempts ≡ false = ground arith in
    let next : inc_u64 f.reconnect_attempts ≡ suc f.reconnect_attempts = omega arith in
    let (t, s) = disconnects-Survived n (reconnected (dropped f)) b refl (omega arith) in
    rw go (
      t,
      record {
        still_connected = s.still_connected;
        attempts = ground (arith, s.attempts, next);
        connections = ground (arith, s.connections, connects-reconnected f);
      },
    )

disconnects-GivenUp :
    (n : ℕ) (f : LiveMarketDataFeedController)
    → f.max_reconnect_attempts < 2 ^ 64
    → f.reconnect_attempts ≤ f.max_reconnect_attempts
    → f.max_reconnect_attempts < f.reconnect_attempts + n
    → ((disconnects n f).1 ≡ true) × GivenUp f (disconnects n f).0
unfolding disconnects handle_disconnect
disconnects-GivenUp zero f b c h = absurd (omega arith)
disconnects-GivenUp (suc n) f b c h =
    elim (Bool-cases (leb f.max_reconnect_attempts f.reconnect_attempts)) [
      | inl stop ↦ rw stop (
        refl,
        record {
          not_connected = refl;
          attempts = ground arith;
          connections = ground (arith, connects-dropped f);
        },
      )
      | inr go ↦
          let next : inc_u64 f.reconnect_attempts ≡ suc f.reconnect_attempts = ground arith in
          let (t, s) =
            disconnects-GivenUp n (reconnected (dropped f)) b (ground arith) (ground arith) in
          rw go (
            t,
            record {
              not_connected = s.not_connected;
              attempts = s.attempts;
              connections = ground (arith, s.connections, connects-reconnected f, next);
            },
          )
    ]

-- A feed that was started is connected after each disconnect, as long as there were at most as many as the
-- reconnects that it is allowed, and has connected once and then once for each of them; one
-- disconnect more and the handler has thrown, with the feed not connected and all the
-- reconnects made. The allowed number is one of 64 bits.
pub disconnects-start :
    (symbols : List String) (most n : ℕ) (m : Bool)
    → most < 2 ^ 64
    → (n ≤ most
        → ((disconnects n (start (new_feed symbols most m))).1 ≡ false)
          × Survived
              (start (new_feed symbols most m))
              n
              (disconnects n (start (new_feed symbols most m))).0)
      × (most < n
          → ((disconnects n (start (new_feed symbols most m))).1 ≡ true)
            × GivenUp
                (start (new_feed symbols most m))
                (disconnects n (start (new_feed symbols most m))).0)
unfolding start new_feed
disconnects-start symbols most n m b = (
  λ h. disconnects-Survived n (start (new_feed symbols most m)) b refl (omega arith),
  λ h. disconnects-GivenUp n (start (new_feed symbols most m)) b (omega arith) (omega arith),
)
