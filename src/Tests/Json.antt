-- ===== src/Tests/Json.antt =====
-- Messages in JSON mode, with a library whose values are lists of numbers.
use wire_protocols.Prelude.{
  ℕ, zero, suc, ◌≡◌, ◌≢◌, refl, ap, Bool, false, true, Option, none, some, List, [], ◌∷◌, ◌++◌, ite,
  if_pos, if_neg, length, take, drop, take-append, drop-append, arith,
}
use wire_protocols.Wire.{Bytes, bytes_discrete}
use wire_protocols.Uuid.{Uuid}
use wire_protocols.Json.{Library, IsLawful}
use wire_protocols.Json.Laws.{Carries}
use wire_protocols.Json.Requests.{request_to_json, request_from_json}
use wire_protocols.Json.Requests.RoundTrip.{request-Carries}
use wire_protocols.Json.Responses.{response_to_json, response_from_json}
use wire_protocols.Json.Responses.RoundTrip.{response-Carries}
use wire_protocols.Header
use wire_protocols.Requests.{create_channel, handle, request_operation}
use wire_protocols.Responses.{channel_created, success, arrived, response_operation}
use wire_protocols.Tests.{id, id-IsUuid, talk, room}

-- Each text with its length in front.
pub pack : List Bytes → Bytes
pack [] = []
pack (x ∷ xs) = length x ∷ (x ++ pack xs)

pub cut : ℕ → Bytes → List Bytes
cut zero s = []
cut (suc n) [] = []
cut (suc n) (l ∷ s) = take l s ∷ cut n (drop l s)

pub join : List Bytes → Bytes
unfolding pack
join xs = length xs ∷ pack xs

pub split : Bytes → List Bytes
unfolding cut
split [] = []
split (n ∷ s) = cut n s

cut-pack : (xs : List Bytes) → cut (length xs) (pack xs) ≡ xs
unfolding cut pack
cut-pack [] = refl
cut-pack (x ∷ xs) = rw (take-append x (pack xs), drop-append x (pack xs), cut-pack xs) refl

pub split-join : (xs : List Bytes) → split (join xs) ≡ xs
unfolding split join
split-join xs = cut-pack xs

-- Keys and values in turn.
pub find : Bytes → List Bytes → Option Bytes
find k [] = some []
find k (l ∷ []) = some []
find k (l ∷ v ∷ rest) = let later = find k rest in ite (bytes_discrete l k) (some v) later

pub has : Bytes → List Bytes → Bool
has k [] = false
has k (l ∷ []) = false
has k (l ∷ v ∷ rest) = let later = has k rest in ite (bytes_discrete l k) true later

pub number : Bytes → Option ℕ
number [] = none
number (n ∷ s) = some n

pub bit : Bool → Bytes
bit true = 1 ∷ []
bit false = []

pub is_set : Bytes → Option Bool
is_set [] = some false
is_set (n ∷ s) = some true

abbrev pub packed : Library
packed = record {
  Value = Bytes;
  null = [];
  of_text = λ s. s;
  of_number = λ n. n ∷ [];
  of_bool = bit;
  of_array = join;
  set = λ k v j. join (k ∷ v ∷ split j);
  at = λ k j. find k (split j);
  contains = λ k j. has k (split j);
  get_text = λ j. some j;
  get_number = number;
  get_bool = is_set;
  get_array = λ j. some (split j);
  items = split;
  dump = λ j. some j;
  parse = λ s. some s;
}

pub packed-at_self : (k v j : Bytes) → find k (split (join (k ∷ v ∷ split j))) ≡ some v
unfolding find
packed-at_self k v j =
    rw (split-join (k ∷ v ∷ split j)) (if_pos (bytes_discrete k k) refl (some v) _)

pub packed-at_other :
    (k l v j : Bytes) → l ≢ k → find k (split (join (l ∷ v ∷ split j))) ≡ find k (split j)
unfolding find
packed-at_other k l v j ne =
    rw (split-join (l ∷ v ∷ split j)) (if_neg (bytes_discrete l k) ne (some v) _)

pub packed-has_self : (k v j : Bytes) → has k (split (join (k ∷ v ∷ split j))) ≡ true
unfolding has
packed-has_self k v j = rw (split-join (k ∷ v ∷ split j)) (if_pos (bytes_discrete k k) refl true _)

pub packed-has_other :
    (k l v j : Bytes) → l ≢ k → has k (split (join (l ∷ v ∷ split j))) ≡ has k (split j)
unfolding has
packed-has_other k l v j ne =
    rw (split-join (l ∷ v ∷ split j)) (if_neg (bytes_discrete l k) ne true _)

pub is_set-bit : (b : Bool) → is_set (bit b) ≡ some b
unfolding is_set bit
is_set-bit true = refl
is_set-bit false = refl

unfoldable pub packed-IsLawful : IsLawful packed
unfolding split has number
packed-IsLawful = record {
  Text = λ s. Unit {0};
  ascii-Text = λ s h. tt;
  IsObject = λ j. Unit {0};
  null-IsObject = tt;
  set-IsObject = λ k v j h. tt;
  at-set_self = λ k v j h. packed-at_self k v j;
  at-set_other = λ k l v j h ne. packed-at_other k l v j ne;
  contains-null = λ k. refl;
  contains-set_self = λ k v j h. packed-has_self k v j;
  contains-set_other = λ k l v j h ne. packed-has_other k l v j ne;
  get_text-of_text = λ s. refl;
  get_number-of_number = λ n h. refl;
  get_bool-of_bool = is_set-bit;
  get_array-of_array = λ vs. ap (λ x. some x) (split-join vs);
  items-of_array = split-join;
  IsClean = λ j. Unit {0};
  null-IsClean = tt;
  of_text-IsClean = λ s h. tt;
  of_number-IsClean = λ n h. tt;
  of_bool-IsClean = λ b. tt;
  of_array-IsClean = λ vs h. tt;
  set-IsClean = λ k v j h hv hj. tt;
  dump_lem = λ j h. (j, refl, tt, refl);
}

abbrev drawn : Bytes → Uuid
drawn s = id 0

request-Carries_example :
    Carries packed packed-IsLawful
      (request_to_json packed (create_channel talk))
      (request_from_json packed drawn Header.create_channel)
      (handle (create_channel talk))
unfolding packed-IsLawful request_operation
request-Carries_example =
    request-Carries packed packed-IsLawful drawn (λ s. refl) (create_channel talk)
      (tt, (id-IsUuid 1 (omega arith), (id-IsUuid 2 (omega arith), tt)))

-- A channel with a snowflake above a byte.
response-Carries_example :
    Carries packed packed-IsLawful
      (response_to_json packed (channel_created (success room)))
      (response_from_json packed drawn Header.create_channel)
      (arrived (channel_created (success room)))
unfolding packed-IsLawful response_operation
response-Carries_example =
    response-Carries packed packed-IsLawful drawn (λ s. refl) (channel_created (success room))
      (record {
        uid_valid = id-IsUuid 9 (omega arith);
        name_text = tt;
        users_valid = (id-IsUuid 1 (omega arith), (id-IsUuid 2 (omega arith), tt));
        snowflakes_fit = omega arith;
      })
