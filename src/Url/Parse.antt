-- ===== src/Url/Parse.antt =====
-- The address that the constructor of `Websocket` (src/websocket.h) makes of a whole URL.
use websocket_proxy.Base.{
  ℕ, ◌+◌, ◌^◌, ◌<◌, ◌≡◌, ◌≢◌, ◌⊎◌, inl, inr, refl, ap, ◌∙◌, true, none, some, [], ◌∷◌, ◌++◌, Text,
  if◌then◌else◌, text_beq, arith, length, Option-cases, drop,
}
use websocket_proxy.Url.Find.{index_of, Lacks, Lacks-append}
use websocket_proxy.Url.{
  split_url, parse_url, Address, split_port, stoi_u16, digits_value, is_digit, default_port, ws,
  scheme_mark, slash, colon, no_port,
}
use websocket_proxy.Url.Laws.{
  split_url-path, split_port-port, split_port-short, split_port-none, split_port-throws,
  stoi_u16-digits,
}

-- proto://authority/p
abbrev pub url_of : Text → Text → Text → Text
url_of t u p = t ++ (scheme_mark ++ (u ++ (slash ++ p)))

module _ (t u p : Text) (ht : Lacks b':' t) (hu : Lacks b'/' u) where
  parse_url-split :
      (host : Text) (port : ℕ)
      → split_port u ≡ some (host, port)
      → parse_url (url_of t u p)
        ≡ some (record { host = host; path = slash ++ p; port = default_port t port })
  unfolding parse_url
  parse_url-split host port e =
      rw (split_url-path t u p ht hu, parse_url)
        (rw (e, parse_url) (rw (split_url-path t u p ht hu)))

  -- proto://host/path, with no colon in the protocol and neither a colon nor a slash in the host, gives
  -- the host and the path, and the port 80 for "ws" and 443 otherwise.
  pub parse_url-default :
      Lacks b':' u
      → parse_url (url_of t u p)
        ≡ some (record { host = u; path = slash ++ p; port = if text_beq t ws then 80 else 443 })
  parse_url-default hc =
      parse_url-split u no_port (split_port-none u hc) ∙ (unfold default_port in refl)

module _ (t u p : Text) (d : ℕ) (ds : Text) (ht : Lacks b':' t) (hu : Lacks b'/' u)
    (hc : Lacks b':' u) (hd : Lacks b'/' (d ∷ ds)) where
  -- proto://host:port/path, with no colon in the protocol, neither a colon nor a slash in the host and
  -- no slash in the port, gives the host, the path and the value of the digits that begin the port, if
  -- there is one, the value is below 65535 and the host does not have 3 or 4 bytes.
  pub parse_url-port :
      is_digit d ≡ true
      → digits_value 0 (d ∷ ds) < no_port
      → length u ≢ 3
      → length u ≢ 4
      → parse_url (url_of t (u ++ (colon ++ d ∷ ds)) p)
        ≡ some (record { host = u; path = slash ++ p; port = digits_value 0 (d ∷ ds) })
  parse_url-port digit lt h3 h4 =
      parse_url-split t (u ++ (colon ++ d ∷ ds)) p ht
        (Lacks-append b'/' u (colon ++ d ∷ ds) hu (refl, hd)) u (digits_value 0 (d ∷ ds))
        (split_port-port u (d ∷ ds) (digits_value 0 (d ∷ ds)) hc h3 h4
          (stoi_u16-digits d ds digit (omega arith) ∙ ap some (omega arith)))
      ∙ (unfold default_port in ground arith)

  -- In proto://host:port/path, with no colon in the protocol, neither a colon nor a slash in the host
  -- and no slash in the port, the port is not read if the host has 3 or 4 bytes: the host keeps the
  -- colon and the port, and the port number is 80 for "ws" and 443 otherwise.
  pub parse_url-short_host :
      (length u ≡ 3) ⊎ (length u ≡ 4)
      → parse_url (url_of t (u ++ (colon ++ d ∷ ds)) p)
        ≡ some (record {
          host = u ++ (colon ++ d ∷ ds);
          path = slash ++ p;
          port = if text_beq t ws then 80 else 443;
        })
  parse_url-short_host short =
      parse_url-split t (u ++ (colon ++ d ∷ ds)) p ht
        (Lacks-append b'/' u (colon ++ d ∷ ds) hu (refl, hd)) (u ++ (colon ++ d ∷ ds)) no_port
        (split_port-short u (d ∷ ds) hc short)
      ∙ (unfold default_port in refl)

stoi_u16-lt : (u : Text) (port : ℕ) → stoi_u16 u ≡ some port → port < 2 ^ 16
unfolding stoi_u16
stoi_u16-lt [] port e = cc
stoi_u16-lt (c ∷ u) port e = ground (arith, stoi_u16-lt u port)

split_port-lt : (u host : Text) (port : ℕ) → split_port u ≡ some (host, port) → port < 2 ^ 16
unfolding split_port
split_port-lt u host port e = elim (Option-cases (index_of colon u)) [
  | inl q ↦ ground arith
  | inr (pos, q) ↦ ground (arith, stoi_u16-lt (drop (pos + 1) u) port)
]

default_port-lt : (t : Text) (port : ℕ) → port < 2 ^ 16 → default_port t port < no_port
unfolding default_port
default_port-lt t port h = ground arith

-- Whatever the URL, the port that the constructor leaves is below 65535.
pub parse_url-port_bound : (u : Text) (a : Address) → parse_url u ≡ some a → a.port < no_port
unfolding parse_url
parse_url-port_bound u a e = elim (Option-cases (split_port (split_url u).host)) [
  | inl q ↦ ground arith
  | inr ((host, port), q) ↦ ground (
    arith,
    split_port-lt (split_url u).host host port q,
    default_port-lt (split_url u).proto port,
  )
]

-- In proto://host:port/path, with no colon in the protocol, neither a colon nor a slash in the host
-- and no slash in the port, a port for which `std::stoi` throws makes the constructor throw, if the
-- host does not have 3 or 4 bytes.
pub parse_url-throws :
    (t u p ds : Text)
    → Lacks b':' t
    → Lacks b'/' u
    → Lacks b':' u
    → Lacks b'/' ds
    → length u ≢ 3
    → length u ≢ 4
    → stoi_u16 ds ≡ none
    → parse_url (url_of t (u ++ (colon ++ ds)) p) ≡ none
unfolding parse_url
parse_url-throws t u p ds ht hu hc hd h3 h4 e =
    rw
      (
        split_url-path t (u ++ (colon ++ ds)) p ht
            (Lacks-append b'/' u (colon ++ ds) hu (refl, hd)),
        parse_url,
      )
      (rw (split_port-throws u ds hc h3 h4 e, parse_url))
