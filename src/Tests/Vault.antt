-- ===== src/Tests/Vault.antt =====
-- A machine with a disk of bytes, a cipher and a codec that meet the laws, and the round trips of the
-- profiles and of the session log on it.
use Prim.Native.Char.{Char, char, code, IsLt, IsScalar}
use Prim.Native.Nat.{Ordering, compare}
use text.Mathlib.TextPositions.{eq_refl}
use privacy_toolkit.Prelude.{
  ℕ, zero, suc, ◌≡◌, refl, ap, arith, ◌==◌, String, Bool, true, false, Option, none, some, List, [],
  ◌∷◌, ◌++◌, str_eq, if◌then◌else◌,
}
use privacy_toolkit.Exec.{◌>>◌}
use privacy_toolkit.Exec.Ends.{Ends}
use privacy_toolkit.Host.{Host, Io, done, broken}
use privacy_toolkit.Tests.Blank.{blank}
use privacy_toolkit.Crypto.{Bytes, Cipher, Codec}
use privacy_toolkit.Crypto.Laws.{length, BytesLaws, CipherLaws, CodecLaws}
use privacy_toolkit.Crypto.RoundTrip.{loaded_if, Refused, load_profile-save_profile}
use privacy_toolkit.Crypto.Profiles.{profile_dir, profile_path, save_profile, load_profile}
use privacy_toolkit.Crypto.Log.{Entry, new_logger, log_all, save_log, decrypt_log}
use privacy_toolkit.Crypto.Log.Decrypt.{msgs, SaveRefused, decrypt_log-save_log}

abbrev LastTwo : Ordering → Ordering → Type 0
LastTwo Ordering.lt o = IsLt o
LastTwo Ordering.eq _ = ⊥
LastTwo Ordering.gt _ = ⊥

-- The clauses that say which numbers are characters.
abbrev Scalar : Ordering → Ordering → Ordering → Type 0
Scalar Ordering.lt _ _ = Unit
Scalar Ordering.eq o p = LastTwo o p
Scalar Ordering.gt o p = LastTwo o p

is_lt? : (o : Ordering) → Option (IsLt o)
is_lt? Ordering.lt = some tt
is_lt? Ordering.eq = none
is_lt? Ordering.gt = none

last_two? : (o p : Ordering) → Option (LastTwo o p)
last_two? Ordering.lt p = is_lt? p
last_two? Ordering.eq p = none
last_two? Ordering.gt p = none

scalar? : (o p q : Ordering) → Option (Scalar o p q)
scalar? Ordering.lt p q = some tt
scalar? Ordering.eq p q = last_two? p q
scalar? Ordering.gt p q = last_two? p q

is_lt?-complete : (o : Ordering) (h : IsLt o) → is_lt? o ≡ some h
unfolding is_lt?
is_lt?-complete Ordering.lt h = refl
is_lt?-complete Ordering.eq h = absurd h
is_lt?-complete Ordering.gt h = absurd h

last_two?-complete : (o p : Ordering) (h : LastTwo o p) → last_two? o p ≡ some h
unfolding last_two?
last_two?-complete Ordering.lt p h = is_lt?-complete p h
last_two?-complete Ordering.eq p h = absurd h
last_two?-complete Ordering.gt p h = absurd h

scalar?-complete : (o p q : Ordering) (h : Scalar o p q) → scalar? o p q ≡ some h
unfolding scalar?
scalar?-complete Ordering.lt p q h = refl
scalar?-complete Ordering.eq p q h = last_two?-complete p q h
scalar?-complete Ordering.gt p q h = last_two?-complete p q h

as_char_if : (n : ℕ) → Option (IsScalar n) → Option Char
as_char_if n none = none
as_char_if n (some p) = some (char n p)

as_char : ℕ → Option Char
unfolding as_char_if
as_char n = as_char_if n (scalar? (compare n 55296) (compare 57343 n) (compare n 1114112))

as_char-code : (c : Char) → as_char (code c) ≡ some c
unfolding as_char as_char_if
as_char-code (char n p) =
    ap (λ o. as_char_if n o)
      (scalar?-complete (compare n 55296) (compare 57343 n) (compare n 1114112) p)

-- A text, ended by a zero.
pub put_text : String → Bytes → Bytes
put_text String.[] rest = 0 ∷ rest
put_text (String.◌∷◌ c s) rest = suc (code c) ∷ put_text s rest

pub put_texts : List String → Bytes
unfolding put_text
put_texts [] = []
put_texts (t ∷ ts) = put_text t (put_texts ts)

with_char : Option Char → Option (List String) → Option (List String)
with_char (some c) (some (t ∷ ts)) = some (String.◌∷◌ c t ∷ ts)
with_char _ _ = none

pub get_texts : Bytes → Option (List String)
unfolding with_char
get_texts [] = some []
get_texts (zero ∷ bs) = elim (get_texts bs) [ none ↦ none | some ts ↦ some ("" ∷ ts) ]
get_texts (suc n ∷ bs) = with_char (as_char n) (get_texts bs)

get_texts-put_text :
    (t : String) (ts : List String) (rest : Bytes)
    → get_texts rest ≡ some ts
    → get_texts (put_text t rest) ≡ some (t ∷ ts)
unfolding get_texts put_text with_char
get_texts-put_text String.[] ts rest h = rw h refl
get_texts-put_text (String.◌∷◌ c s) ts rest h =
    rw (as_char-code c, get_texts-put_text s ts rest h) refl

pub get_texts-put_texts : (ts : List String) → get_texts (put_texts ts) ≡ some ts
unfolding get_texts put_texts
get_texts-put_texts [] = refl
get_texts-put_texts (t ∷ ts) = get_texts-put_text t ts (put_texts ts) (get_texts-put_texts ts)

abbrev texts : Codec (List String)
texts = record { dumps = put_texts; loads = get_texts }

abbrev texts_laws : CodecLaws texts
texts_laws = record { loads-dumps = get_texts-put_texts }

flat : List Entry → List String
flat [] = []
flat (e ∷ es) = e.ts ∷ e.msg ∷ flat es

paired : List String → List Entry
paired (t ∷ m ∷ rest) = record { ts = t; msg = m } ∷ paired rest
paired _ = []

paired-flat : (es : List Entry) → paired (flat es) ≡ es
unfolding paired flat
paired-flat [] = refl
paired-flat (e ∷ es) = ap (λ r. e ∷ r) (paired-flat es)

abbrev entries_of : Option (List String) → Option (List Entry)
entries_of none = none
entries_of (some ts) = some (paired ts)

abbrev entries : Codec (List Entry)
entries = record { dumps = λ es. put_texts (flat es); loads = λ bs. entries_of (get_texts bs) }

abbrev entries_laws : CodecLaws entries
entries_laws = record {
  loads-dumps = λ es. rw (get_texts-put_texts (flat es), paired-flat es) refl;
}

pub zeros : ℕ → Bytes
zeros zero = []
zeros (suc n) = 0 ∷ zeros n

pub length-zeros : (n : ℕ) → length (zeros n) ≡ n
unfolding length zeros
length-zeros zero = refl
length-zeros (suc n) = ap suc (length-zeros n)

abbrev is_stored : Option Bytes → Bool
is_stored none = false
is_stored (some _) = true

abbrev stored : Option Bytes → Io Bytes
stored none = broken
stored (some bs) = done bs

abbrev pub vault : Host
vault = record (blank (String → Option Bytes)) {
  exists = λ path d. is_stored (d path);
  read_bytes = λ path d. stored (d path);
  write_bytes = λ path bs d. (done tt, λ q. if str_eq path q then some bs else d q);
  random = λ n d. (zeros n, d);
}

abbrev pub vault_laws : BytesLaws vault
vault_laws = record {
  random_length = λ n d. length-zeros n;
  read_written = λ path bs d _. (rw (eq_refl path) refl, rw (eq_refl path) refl);
}

-- What follows the key, if the key is in front.
pub opened : Bytes → Bytes → Option Bytes
opened [] t = some t
opened (a ∷ key) [] = none
opened (a ∷ key) (b ∷ t) = if a == b then opened key t else none

pub opened-append : (key t : Bytes) → opened key (key ++ t) ≡ some t
unfolding opened
opened-append [] t = refl
opened-append (a ∷ key) t =
    let same : (a == a) ≡ true = ground arith in rw (same, opened-append key t) refl

abbrev pub cipher : Cipher vault
cipher = record {
  encode = λ t. put_text t [];
  pbkdf2 = λ _ salt _ passphrase. salt ++ passphrase;
  urlsafe_b64encode = λ bs. bs;
  encrypt = λ key bs d. (key ++ bs, d);
  decrypt = opened;
}

abbrev pub cipher_laws : CipherLaws cipher
cipher_laws = record { decrypt-encrypt = λ key bs d. opened-append key bs }

abbrev pub empty_disk : String → Option Bytes
empty_disk _ = none

load_profile-save_profile_example :
    Ends
      (λ _ d.
        load_profile vault cipher texts "home" "secret" d
        ≡ (loaded_if true ("eth0" ∷ "24" ∷ []), d))
      (λ _.
        Refused vault cipher texts
          (profile_dir vault)
          (λ _. profile_path vault "home")
          ("eth0" ∷ "24" ∷ [])
          "secret"
          empty_disk)
      (save_profile vault cipher texts "home" ("eth0" ∷ "24" ∷ []) "secret" empty_disk)
load_profile-save_profile_example =
    load_profile-save_profile vault vault_laws cipher cipher_laws texts texts_laws "home" "secret"
      ("eth0" ∷ "24" ∷ []) empty_disk

decrypt_log-save_log_example :
    Ends
      (λ path l.
        (es : List Entry) × (decrypt_log vault cipher entries path "secret" l.sys
          ≡ (loaded_if true es, l.sys))
        × (msgs es ≡ "started" ∷ "stopped" ∷ []))
      (λ _.
        (es : List Entry) × (msgs es ≡ "started" ∷ "stopped" ∷ [])
        × SaveRefused vault vault_laws cipher cipher_laws entries entries_laws es "secret" none
            empty_disk)
      ((do log_all vault ("started" ∷ "stopped" ∷ []); save_log vault cipher entries "secret" none)
        (new_logger vault empty_disk))
decrypt_log-save_log_example =
    decrypt_log-save_log vault vault_laws cipher cipher_laws entries entries_laws
      ("started" ∷ "stopped" ∷ []) "secret" none (new_logger vault empty_disk) refl
