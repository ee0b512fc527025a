-- ===== src/Admin/ReaderDetail/Expiry.antt =====
-- The instant of expiry that `ReaderDetail` of apps/web/src/pages/AdminReadersPage.tsx shows and sends.
use novel_platform.Common.{ℕ, ◌+◌, ◌*◌, ◌/◌, ◌≤◌, none, some, ◌≡◌, ◌↔◌, arith}
use novel_platform.Admin.ReaderDetail.{Zone, Credential, default_expiry, expiry_iso, initial_expiry}

-- For a reader without a credential the form proposes the minute 30 days from now, in any zone.
expiry_iso-default_expiry :
    (z : Zone) (now : ℕ)
    → z.behind ≤ (now + 2592000) / 60
    → expiry_iso z (initial_expiry z now none) ≡ (now + 2592000) / 60 * 60
unfolding expiry_iso initial_expiry default_expiry
expiry_iso-default_expiry z now h = omega arith

-- For a reader with a credential, saving the form as it was opened keeps the minute of expiry exactly
-- in a zone without an offset from UTC, and loses the seconds.
expiry_iso-initial_expiry_iff :
    (z : Zone) (now : ℕ) (c : Credential)
    → z.ahead ≤ c.expires_at / 60
    → (expiry_iso z (initial_expiry z now (some c)) ≡ c.expires_at / 60 * 60) ↔ (z.ahead ≡ z.behind)
unfolding expiry_iso initial_expiry
expiry_iso-initial_expiry_iff z now c h = ground arith
