-- ===== src/Tests/Matching.antt =====
-- Patterns of applications and of domains.
use route_guard.Prelude.{ℕ, ◌≡◌, ◌↔◌, ◌⊎◌, refl, true, List, [], ◌∷◌, ◌++◌}
use route_guard.Prelude.Text.{Text, bytes}
use route_guard.Routing.App.{glob_match}
use route_guard.Routing.App.Glob.{Glob, glob_match_iff}
use route_guard.Routing.Domain.{domain_matches, normalize_domain}
use route_guard.Routing.Domain.Matching.{
  domain_matches-wildcard, domain_matches-plain, domain_matches-append_dot,
}
use route_guard.Tests.Sample.{test_platform}

glob_match_iff_example :
    (glob_match (bytes "c:/*/s*.exe") (bytes "c:/x/steam.exe") ≡ true)
    ↔ Glob (bytes "c:/*/s*.exe") (bytes "c:/x/steam.exe")
glob_match_iff_example = glob_match_iff (bytes "c:/*/s*.exe") (bytes "c:/x/steam.exe") refl

domain_matches-wildcard_example :
    (domain_matches test_platform (bytes "*.Bank.com") (bytes "login.bank.com") ≡ true) ↔ (
      (b : ℕ) × (q : Text) × (normalize_domain (bytes "login.bank.com")
        ≡ (b ∷ q) ++ (b'.' ∷ bytes "bank.com")))
unfolding route_guard.Prelude.Text.to_ascii_lowercase route_guard.Prelude.Text.trim_end_matches
domain_matches-wildcard_example =
    domain_matches-wildcard test_platform (bytes "*.Bank.com") (bytes "login.bank.com")
      (bytes "bank.com") refl

domain_matches-plain_example :
    (domain_matches test_platform (bytes "bank.com") (bytes "notbank.com") ≡ true) ↔ (
      (normalize_domain (bytes "notbank.com") ≡ bytes "bank.com")
      ⊎ ((q : Text) × (normalize_domain (bytes "notbank.com") ≡ q ++ (b'.' ∷ bytes "bank.com"))))
unfolding route_guard.Prelude.Text.starts_with route_guard.Prelude.Text.to_ascii_lowercase
    route_guard.Prelude.Text.trim_end_matches
domain_matches-plain_example =
    domain_matches-plain test_platform (bytes "bank.com") (bytes "notbank.com") refl

domain_matches-append_dot_example :
    domain_matches test_platform (bytes "*.bank.com") (bytes "login.bank.com" ++ b'.' ∷ [])
    ≡ domain_matches test_platform (bytes "*.bank.com") (bytes "login.bank.com")
domain_matches-append_dot_example =
    domain_matches-append_dot test_platform (bytes "*.bank.com") (bytes "login.bank.com")
