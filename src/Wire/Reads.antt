-- ===== src/Wire/Reads.antt =====
-- Rules for readers: a reader that takes `bytes` off the buffer at its offset.
use wire_protocols.Prelude.{
  ℕ, ◌+◌, ◌≤◌, ◌≡◌, refl, Option, sym, ap, ◌∙◌, some, List, [], ◌∷◌, ◌++◌, arith, length,
  length-append, drop, take-append, drop-append, drop-drop, get_elem?-drop, length-drop,
  append_assoc, append-nil, subst, All, leb, true,
}
use wire_protocols.Wire.{
  Bytes, Reader, ◌>>=◌, pure, byte_at, slice, get_byte, get_bytes, get_times, get_string,
  put_string, run_reader, Fits, u8,
}

-- `bytes` stand in the buffer at offset `i`, and `rest` behind them.
pub record At (buf : Bytes) (i : ℕ) (bytes rest : Bytes) : Type 0 where
  pub inside : i ≤ length buf
  pub found : drop i buf ≡ bytes ++ rest

-- Where `bytes` stand at the offset, the reader returns `a` and moves behind them.
abbrev pub Reads {ℓ} : {A : Type ℓ} → Reader A → Bytes → A → Type ℓ
Reads p bytes a =
    (buf rest : Bytes) (i : ℕ) → At buf i bytes rest → p buf i ≡ some (a, i + length bytes)

pub At-end : (buf bytes rest : Bytes) (i : ℕ) → At buf i bytes rest → i + length bytes ≤ length buf
At-end buf bytes rest i h =
    omega (arith, h.inside, length-drop i buf, ap length h.found, length-append bytes rest)

pub At-behind :
    (buf xs ys rest : Bytes) (i : ℕ) → At buf i (xs ++ ys) rest → At buf (i + length xs) ys rest
At-behind buf xs ys rest i h = record {
  inside = omega (arith, At-end buf (xs ++ ys) rest i h, length-append xs ys);
  found =
      sym (drop-drop i (length xs) buf)
      ∙ rw (h.found, append_assoc xs ys rest) (drop-append xs (ys ++ rest));
}

pub At-front :
    (buf xs ys rest : Bytes) (i : ℕ) → At buf i (xs ++ ys) rest → At buf i xs (ys ++ rest)
At-front buf xs ys rest i h = record {
  inside = h.inside;
  found = h.found ∙ append_assoc xs ys rest;
}

pub byte_at-At : (buf rest : Bytes) (i b : ℕ) → At buf i (b ∷ []) rest → byte_at buf i ≡ some b
unfolding byte_at
byte_at-At buf rest i b h = get_elem?-drop i buf h.found

pub slice-At : (buf s rest : Bytes) (i : ℕ) → At buf i s rest → slice buf i (length s) ≡ some s
unfolding slice
slice-At buf s rest i h =
    let inside : leb (i + length s) (length buf) ≡ true = ground (arith, At-end buf s rest i h) in
    rw (inside, h.found) (ap some (take-append s rest))

pub get_byte-Reads : (b : ℕ) → Reads get_byte (b ∷ []) b
unfolding get_byte
get_byte-Reads b buf rest i h = rw (byte_at-At buf rest i b h, get_byte)

pub get_bytes-Reads : (s : Bytes) → Reads (get_bytes (length s)) s s
unfolding get_bytes
get_bytes-Reads s buf rest i h = rw (slice-At buf s rest i h, get_bytes)

module _ {ℓ κ} {A : Type ℓ} {B : Type κ} where
  pub >>=-Reads :
      (p : Reader A) (f : A → Reader B) (a : A) (b : B) (xs ys : Bytes)
      → Reads p xs a
      → Reads (f a) ys b
      → Reads (p >>= f) (xs ++ ys) b
  >>=-Reads p f a b xs ys hp hf buf rest i h =
      let first = hp buf (ys ++ rest) i (At-front buf xs ys rest i h) in
      let second = hf buf rest (i + length xs) (At-behind buf xs ys rest i h) in
      let total : i + length xs + length ys ≡ i + length (xs ++ ys) =
        omega (arith, length-append xs ys) in
      rw (first, ◌>>=◌) (second ∙ ap (λ n. some (b, n)) total)

pub pure-Reads {ℓ} : {A : Type ℓ} (a : A) → Reads (pure a) [] a
pure-Reads a buf rest i h = let still : i ≡ i + 0 = omega arith in ap (λ n. some (a, n)) still

-- A read, and the last step that puts its value into the result.
pub >>=-pure-Reads {ℓ κ} :
    {A : Type ℓ} {B : Type κ} (p : Reader B) (g : B → A) (b : B) (xs : Bytes)
    → Reads p xs b
    → Reads (p >>= λ x. pure (g x)) xs (g b)
>>=-pure-Reads p g b xs hp buf rest i h = rw (hp buf rest i h, ◌>>=◌)

module _ {ℓ} {A : Type ℓ} where
  -- The bytes of all the elements, one after the other.
  abbrev pub concat_map : (A → Bytes) → List A → Bytes
  concat_map put [] = []
  concat_map put (x ∷ xs) = put x ++ concat_map put xs

  pub get_times-Reads {κ} :
      {P : A → Type κ} (p : Reader A) (put : A → Bytes)
      → ((x : A) → P x → Reads p (put x) x)
      → (xs : List A) → All P xs
      → Reads (get_times (length xs) p) (concat_map put xs) xs
  unfolding get_times
  get_times-Reads p put each [] h = pure-Reads []
  get_times-Reads p put each (x ∷ xs) (hx, hxs) =
      >>=-Reads p _ x (x ∷ xs) (put x) (concat_map put xs) (each x hx) (
        >>=-pure-Reads (get_times (length xs) p) (λ ys. x ∷ ys) xs (concat_map put xs)
          (get_times-Reads p put each xs hxs))

  pub run_reader-Reads :
      (p : Reader A) (a : A) (bytes rest : Bytes)
      → Reads p bytes a
      → run_reader (bytes ++ rest) p ≡ some a
  run_reader-Reads p a bytes rest h =
      rw (h (bytes ++ rest) rest 0 (record { inside = omega arith; found = refl }), run_reader)

u8-Fits {ℓ} : {A : Type ℓ} (xs : List A) → Fits xs → u8 (length xs) ≡ length xs
u8-Fits xs h = omega arith

-- A string that fits is read back from its length byte and its characters.
pub get_string-Reads : (s : Bytes) → Fits s → Reads get_string (put_string s) s
unfolding get_string put_string
get_string-Reads s h = rw (u8-Fits s h) (
    >>=-Reads get_byte get_bytes (length s) s (length s ∷ []) s (get_byte-Reads (length s))
      (get_bytes-Reads s))

module _ {ℓ} {B : Type ℓ} {b : B} where
  pub byte_then :
      (x : ℕ) (f : ℕ → Reader B) (ys : Bytes) → Reads (f x) ys b → Reads (get_byte >>= f) (x ∷ ys) b
  byte_then x f ys h = >>=-Reads get_byte f x b (x ∷ []) ys (get_byte-Reads x) h

  pub string_then :
      (s : Bytes) (f : Bytes → Reader B) (ys : Bytes)
      → Fits s
      → Reads (f s) ys b
      → Reads (get_string >>= f) (put_string s ++ ys) b
  string_then s f ys fits h =
      >>=-Reads get_string f s b (put_string s) ys (get_string-Reads s fits) h

-- A string that fits, found at fixed positions: its length byte, its characters, and what follows.
pub At-string :
    (buf s rest : Bytes) (i : ℕ)
    → Fits s
    → At buf i (put_string s) rest
    → (byte_at buf i ≡ some (length s))
      × (slice buf (i + 1) (length s) ≡ some s)
      × At buf (i + 1 + length s) [] rest
unfolding put_string
At-string buf s rest i fits h =
    let kept : u8 (length s) ≡ length s = omega arith in
    let here : At buf i (length s ∷ s) rest = rw kept at h in
    let behind : At buf (i + 1) s rest = At-behind buf (length s ∷ []) s rest i here in
    (
      byte_at-At buf (s ++ rest) i (length s) (At-front buf (length s ∷ []) s rest i here),
      slice-At buf s rest (i + 1) behind,
      At-behind buf s [] rest (i + 1)
          (subst (λ t. At buf (i + 1) t rest) (sym (append-nil s)) behind),
    )

pub At-next : (buf xs rest : Bytes) (i j : ℕ) → i ≡ j → At buf i [] (xs ++ rest) → At buf j xs rest
At-next buf xs rest i j e h = record { inside = omega (arith, h.inside); found = rw (← e) h.found }

-- The same at a position and a count that are written in another way.
pub slice_moved :
    (buf : Bytes) (i j n : ℕ) {r : Option Bytes} → i ≡ j → slice buf i n ≡ r → slice buf j n ≡ r
slice_moved buf i j n e h = rw (← e) h
