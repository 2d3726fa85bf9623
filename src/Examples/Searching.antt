-- ===== src/Examples/Searching.antt =====
-- A search among two hostnames of which one answers.
use beta.Base.{ℕ, ◌<◌, ◌≡◌, refl, String, Bool, List, [], ◌∷◌, ok, str_eq}
use beta.Tailscale.{hostname, get_hostname_for_service}
use beta.Tailscale.Search.{Ends, get_hostname_for_service-Ends}

-- A source that always answers zero.
abbrev zeros : ℕ → ℕ → ℕ × ℕ
zeros seed n = (0, seed)

zeros_in_range : (seed n : ℕ) → 0 < n → (zeros seed n).0 < n
zeros_in_range seed n h = h

abbrev second_answers : String → Bool
second_answers h = str_eq h "b:80"

abbrev two_hosts : List String
two_hosts = "a:80" ∷ "b:80" ∷ []

get_hostname_for_service-Ends_example :
    Ends second_answers two_hosts (get_hostname_for_service zeros second_answers (ok two_hosts) 0)
get_hostname_for_service-Ends_example =
    get_hostname_for_service-Ends zeros second_answers zeros_in_range two_hosts 0

second_found : get_hostname_for_service zeros second_answers (ok two_hosts) 0 ≡ hostname "b:80"
unfolding get_hostname_for_service
second_found = refl
