-- ===== src/Url/Laws.antt =====
-- How the parts of the constructor's URL handling (src/websocket.h) split a text.
use websocket_proxy.Base.{
  ℕ, ◌+◌, ◌%◌, ◌^◌, ◌<◌, ◌≡◌, ◌≢◌, ◌⊎◌, ap, ◌∙◌, true, none, some, [], ◌∷◌, ◌++◌, Text, drop, arith,
  length, take-length-append, drop-length-append, drop-add,
}
use native.Mathlib.Nat.{add-sub_cancel_left}
use websocket_proxy.Url.Find.{index_from, Lacks, index_of-append, index_of-none}
use websocket_proxy.Url.{
  split_url, split_port, stoi_u16, digits_value, is_digit, scheme_mark, slash, colon, no_port,
}

-- What stands behind "://".
drop-mark : (t u : Text) → drop (length t + 3) (t ++ (scheme_mark ++ u)) ≡ u
drop-mark t u =
    drop-add (length t) 3 (t ++ (scheme_mark ++ u))
    ∙ ap (drop 3) (drop-length-append t (scheme_mark ++ u))

-- A URL with a scheme and a path is split at "://" and at the first "/" behind it.
pub split_url-path :
    (t u p : Text)
    → Lacks b':' t
    → Lacks b'/' u
    → split_url (t ++ (scheme_mark ++ (u ++ (slash ++ p))))
      ≡ record { proto = t; host = u; path = slash ++ p }
unfolding split_url index_from
split_url-path t u p ht hu =
    rw (index_of-append b':' (b'/' ∷ b'/' ∷ []) t (u ++ (slash ++ p)) ht, split_url)
      (rw (drop-mark t (u ++ (slash ++ p)), split_url)
        (rw (index_of-append b'/' [] u p hu, split_url)
          (cc (
            take-length-append t (scheme_mark ++ (u ++ (slash ++ p))),
            drop-mark t (u ++ (slash ++ p)),
            drop-add (length t + 3) (length u) (t ++ (scheme_mark ++ (u ++ (slash ++ p)))),
            add-sub_cancel_left (length t + 3) (length u),
            take-length-append u (slash ++ p),
            drop-length-append u (slash ++ p),
          ))))

-- So is one without a path, which is "/" then.
pub split_url-host :
    (t u : Text)
    → Lacks b':' t
    → Lacks b'/' u
    → split_url (t ++ (scheme_mark ++ u)) ≡ record { proto = t; host = u; path = slash }
unfolding split_url index_from
split_url-host t u ht hu =
    rw (index_of-append b':' (b'/' ∷ b'/' ∷ []) t u ht, split_url)
      (rw (drop-mark t u, split_url)
        (rw (index_of-none b'/' [] u hu, split_url)
          (cc (take-length-append t (scheme_mark ++ u), drop-mark t u))))

-- A host with a port, where the colon does not stand at place 3 or 4.
pub split_port-port :
    (u ds : Text) (d : ℕ)
    → Lacks b':' u
    → length u ≢ 3
    → length u ≢ 4
    → stoi_u16 ds ≡ some d
    → split_port (u ++ (colon ++ ds)) ≡ some (u, d)
unfolding split_port
split_port-port u ds d hu h3 h4 hd =
    rw (index_of-append b':' [] u ds hu, split_port)
      (ground (
        arith,
        drop-add (length u) 1 (u ++ (colon ++ ds)),
        drop-length-append u (colon ++ ds),
        take-length-append u (colon ++ ds),
      ))

pub split_port-throws :
    (u ds : Text)
    → Lacks b':' u
    → length u ≢ 3
    → length u ≢ 4
    → stoi_u16 ds ≡ none
    → split_port (u ++ (colon ++ ds)) ≡ none
unfolding split_port
split_port-throws u ds hu h3 h4 hd =
    rw (index_of-append b':' [] u ds hu, split_port)
      (ground
        (arith, drop-add (length u) 1 (u ++ (colon ++ ds)), drop-length-append u (colon ++ ds)))

-- Where it does, the host keeps the colon and the digits, and no port is read.
pub split_port-short :
    (u ds : Text)
    → Lacks b':' u
    → (length u ≡ 3) ⊎ (length u ≡ 4)
    → split_port (u ++ (colon ++ ds)) ≡ some (u ++ (colon ++ ds), no_port)
unfolding split_port
split_port-short u ds hu h = rw (index_of-append b':' [] u ds hu, split_port) (ground arith)

pub split_port-none : (u : Text) → Lacks b':' u → split_port u ≡ some (u, no_port)
unfolding split_port
split_port-none u hu = rw (index_of-none b':' [] u hu, split_port)

-- What `std::stoi` reads of digits: their value, if it is an `int`.
pub stoi_u16-digits :
    (d : ℕ) (ds : Text)
    → is_digit d ≡ true
    → digits_value 0 (d ∷ ds) < 2 ^ 31
    → stoi_u16 (d ∷ ds) ≡ some (digits_value 0 (d ∷ ds) % 2 ^ 16)
unfolding stoi_u16
stoi_u16-digits d ds hd lt = ground arith
