-- ===== src/Auth/Joint/Refines.antt =====
-- The provider that runs with the client is the provider of Auth/Provider, and what it says of the user fits
-- the client's token.
use novel_platform.Common.{List, [], ◌∷◌, ◌≡◌, refl, ◌∙◌}
use novel_platform.Api.Client.{Shared}
use novel_platform.Api.Client.Tasks.{Client}
use novel_platform.Auth.Provider.{Provider, Event, provide, provide_all}
use novel_platform.Auth.Provider.Consistent.{Consistent}
use novel_platform.Auth.Joint.{Joint, follow, deliver, put}
use novel_platform.Auth.Joint.Signed.{Signed}

module _ {S : Type 0} where
  -- The provider has come to `q` from `p` by its own events.
  Provides : Provider S → Provider S → Type 0
  Provides p q = (es : List (Event S)) × (q ≡ provide_all es p)

  deliver_provider :
      (es : List (Event S)) (s : Shared) (p : Provider S) → (deliver es (s, p)).1 ≡ provide_all es p
  unfolding deliver provide_all
  deliver_provider [] s p = refl
  deliver_provider (e ∷ es) s p = deliver_provider es (follow e p s) (provide e p)

  put_provider : (c : Client) (x : Shared × Provider S) → (put c x).provider ≡ x.1
  unfolding put
  put_provider c (s, p) = refl

  delivered :
      (es : List (Event S)) (c : Client) (s : Shared) (p : Provider S)
      → Provides p (put c (deliver es (s, p))).provider
  unfolding Provides
  delivered es c s p = (es, put_provider c (deliver es (s, p)) ∙ deliver_provider es s p)
