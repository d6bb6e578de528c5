-- ===== src/Playback/Proxy/Target/Safety.antt =====
-- The dialer of the proxy connects to no address that is not public.
use hummtube.Base.{
  ◌≡◌, false, String, List, [], ◌∷◌, Option, none, some, ◌⊎◌, inl, inr, All, any, Bool-cases,
}
use hummtube.Iptv.Network.{Addr, Net, unmap, addr_eq}
use hummtube.Playback.Proxy.Target.{
  TargetError, is_forbidden_media_address, put_after, distinct_addresses, some_address, looked_up,
  media_addresses, resolve_public_media_addresses, dial_each, dial_found, dial_media,
}

abbrev pub IsPublicMedia : Addr → Type 0
IsPublicMedia a = is_forbidden_media_address a ≡ false

abbrev ArePublic : TargetError ⊎ List Addr → Type 0
ArePublic (inl e) = Unit
ArePublic (inr addresses) = All IsPublicMedia addresses

-- An error, or a connection to a public address.
abbrev pub EndsPublicMedia : TargetError ⊎ Addr → Type 0
EndsPublicMedia (inl e) = Unit
EndsPublicMedia (inr a) = IsPublicMedia a

put_after-ArePublic :
    (a : Addr) (x : TargetError ⊎ List Addr)
    → IsPublicMedia a
    → ArePublic x
    → ArePublic (put_after a x)
put_after-ArePublic a (inl e) p h = tt
put_after-ArePublic a (inr rest) p h = (p, h)

distinct_addresses-ArePublic :
    (seen addresses : List Addr) → ArePublic (distinct_addresses seen addresses)
unfolding distinct_addresses
distinct_addresses-ArePublic seen [] = tt
distinct_addresses-ArePublic seen (raw ∷ addresses) =
    let address = unmap raw in
    elim (Bool-cases (is_forbidden_media_address address)) [
      | inl f ↦ rw f tt
      | inr ok ↦ rw ok (elim (Bool-cases (any (addr_eq address) seen)) [
        | inl known ↦ rw known (distinct_addresses-ArePublic seen addresses)
        | inr added ↦ rw added (
            put_after-ArePublic address _ ok
              (distinct_addresses-ArePublic (address ∷ seen) addresses))
      ])
    ]

some_address-ArePublic : (x : TargetError ⊎ List Addr) → ArePublic x → ArePublic (some_address x)
some_address-ArePublic (inl e) h = tt
some_address-ArePublic (inr []) h = tt
some_address-ArePublic (inr (a ∷ addresses)) h = h

looked_up-ArePublic : (found : Option (List Addr)) → ArePublic (looked_up found)
unfolding looked_up
looked_up-ArePublic none = tt
looked_up-ArePublic (some []) = tt
looked_up-ArePublic (some (a ∷ addresses)) =
    some_address-ArePublic _ (distinct_addresses-ArePublic [] (a ∷ addresses))

media_addresses-ArePublic :
    (literal : Option Addr) (found : Option (List Addr)) → ArePublic (media_addresses literal found)
unfolding media_addresses
media_addresses-ArePublic none found = looked_up-ArePublic found
media_addresses-ArePublic (some literal) found =
    elim (Bool-cases (is_forbidden_media_address (unmap literal))) [
      | inl f ↦ rw f tt
      | inr ok ↦ rw ok (ok, tt)
    ]

module _ (net : Net) where
  resolved-ArePublic : (host : String) → ArePublic (resolve_public_media_addresses net host)
  unfolding resolve_public_media_addresses
  resolved-ArePublic host = media_addresses-ArePublic (net.parse_addr host) _

  dial_each-IsPublic :
      (port : String) (addresses : List Addr)
      → All IsPublicMedia addresses
      → All IsPublicMedia (dial_each net port addresses).0
        × EndsPublicMedia (dial_each net port addresses).1
  unfolding dial_each
  dial_each-IsPublic port [] h = (tt, tt)
  dial_each-IsPublic port (a ∷ addresses) (p, h) = elim (Bool-cases (net.dial a port)) [
    | inl y ↦ rw y ((p, tt), p)
    | inr n ↦ let rest = dial_each-IsPublic port addresses h in rw n ((p, rest.0), rest.1)
  ]

  dial_found-IsPublic :
      (port : String) (x : TargetError ⊎ List Addr)
      → ArePublic x
      → All IsPublicMedia (dial_found net port x).0 × EndsPublicMedia (dial_found net port x).1
  dial_found-IsPublic port (inl e) h = (tt, tt)
  dial_found-IsPublic port (inr addresses) h = dial_each-IsPublic port addresses h

  -- Whatever the name resolves to, the proxy dials only addresses that it does not forbid, and the
  -- connection it returns is to one of them.
  pub dial_media-IsPublicMedia :
      (host port : String)
      → All IsPublicMedia (dial_media net host port).0
        × EndsPublicMedia (dial_media net host port).1
  unfolding dial_media
  dial_media-IsPublicMedia host port = dial_found-IsPublic port _ (resolved-ArePublic host)
