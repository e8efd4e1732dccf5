-- ===== src/Testing/Cacheable.antt =====
-- What the cache makes of the fixtures.
use dnser.Base.{ℕ, ◌≡◌, refl, min, none, some, List, [], ◌∷◌}
use dnser.Base.Bytes.{Bytes}
use dnser.Cache.{cacheable_ttl, positive, soa_negative_ttl, min_ttl}
use dnser.Proto.Codes.{rcode_try_from}
use dnser.Proto.Header.{is_truncated, rcode}
use dnser.Proto.Question.{Question}
use dnser.Proto.Record.{ResourceRecord}
use dnser.Testing.{soa_record}
use dnser.Testing.Fixtures.{noerror, servfail, truncated, nxdomain, nodata}

-- What the cache keeps of the fixtures, whatever its cap, the question and the records: a NOERROR
-- response with answers for the least of their ttls, an NXDOMAIN and a NODATA response for the
-- least of the SOA's ttl, its minimum and the cap, all three unless that is 0; no SERVFAIL, no
-- truncated response and no empty NOERROR response without an SOA.
pub fixtures_cacheable :
    (cap ttl minimum : ℕ) (zone : Bytes) (q : Question) (rr : ResourceRecord)
    (answers : List ResourceRecord)
    → (cacheable_ttl cap (noerror q (rr ∷ answers)) ≡ positive (min_ttl (rr ∷ answers)))
      × (cacheable_ttl cap (nxdomain q (soa_record zone ttl minimum))
          ≡ positive (some (min (min ttl minimum) cap)))
      × (cacheable_ttl cap (nodata q (soa_record zone ttl minimum))
          ≡ positive (some (min (min ttl minimum) cap)))
      × (cacheable_ttl cap (servfail q) ≡ none)
      × (cacheable_ttl cap (truncated q answers) ≡ none)
      × (cacheable_ttl cap (noerror q []) ≡ none)
unfolding cacheable_ttl is_truncated rcode rcode_try_from soa_negative_ttl soa_record noerror
    nxdomain nodata servfail truncated
fixtures_cacheable cap ttl minimum zone q rr answers = (refl, refl, refl, refl, refl, refl)
