-- ===== src/Responses/Listing.antt =====
-- src/message/list_accounts_response.cpp: the users that a search found.
use wire_protocols.Prelude.{
  ℕ, ◌+◌, ◌≡◌, refl, sym, Option, none, some, List, [], ◌∷◌, map, arith, length, length-append,
  append-nil, drop, All,
}
use wire_protocols.Wire.{Bytes, Reader, ◌>>=◌, run_reader, get_byte, get_times, u8, Fits}
use wire_protocols.Wire.Reads.{
  Reads, byte_then, >>=-Reads, >>=-pure-Reads, pure-Reads, concat_map, run_reader-Reads,
}
use wire_protocols.Models.User.{
  User, IsUser, put_user, get_user, user_size, received_user, user_size-put_user, get_user-Reads,
  blank_user,
}

-- The number of users in one byte, and each of them.
unfoldable pub put_listing : List User → Bytes
unfolding put_user
put_listing us = u8 (length us) ∷ concat_map put_user us

-- A round of the loop: a new user is read from a copy of the rest of the buffer, and the offset
-- moves on by the size of the user that was read.
abbrev advance : ℕ → Option User → Option (User × ℕ)
advance i none = none
advance i (some u) = some (u, i + user_size u)

unfoldable pub get_listed : Reader User
get_listed buf i = advance i (run_reader (drop i buf) (get_user blank_user))

unfoldable pub read_listing : Reader (List User)
unfolding get_byte get_times get_listed
read_listing = do users_length ← get_byte; get_times users_length get_listed

unfoldable pub get_listing : Bytes → Option (List User)
get_listing buf = run_reader buf read_listing

-- The loop of `ListAccountsResponse::size`.
unfoldable pub users_size : List User → ℕ
unfolding user_size
users_size [] = 0
users_size (u ∷ us) = user_size u + users_size us

unfoldable pub listing_size : List User → ℕ
unfolding users_size
listing_size us = 1 + users_size us

abbrev pub IsListing : List User → Type 0
IsListing us = Fits us × All IsUser us

get_listed-Reads :
    (u : User) → IsUser u → Reads get_listed (put_user u) (received_user blank_user u)
unfolding get_listed user_size
get_listed-Reads u h buf rest i at =
    let sub =
      run_reader-Reads (get_user blank_user) (received_user blank_user u) (put_user u) rest
        (get_user-Reads blank_user u h) in
    let same : user_size (received_user blank_user u) ≡ length (put_user u) =
      sym (user_size-put_user u) in
    rw (at.found, sub, advance, same)

abbrev pub received_listing : List User → List User
received_listing = map (received_user blank_user)

get_each-Reads :
    (us : List User)
    → All IsUser us
    → Reads (get_times (length us) get_listed) (concat_map put_user us) (received_listing us)
unfolding get_times
get_each-Reads [] h = pure-Reads []
get_each-Reads (u ∷ us) (hu, hus) =
    let first = received_user blank_user u in
    >>=-Reads get_listed _ first (received_listing (u ∷ us)) (put_user u) (concat_map put_user us)
      (get_listed-Reads u hu)
      (>>=-pure-Reads (get_times (length us) get_listed) (λ rest. first ∷ rest)
        (received_listing us) (concat_map put_user us) (get_each-Reads us hus))

read_listing-Reads :
    (us : List User) → IsListing us → Reads read_listing (put_listing us) (received_listing us)
unfolding read_listing put_listing
read_listing-Reads us (fits, valid) =
    let kept : u8 (length us) ≡ length us = omega arith in
    rw kept (byte_then (length us) _ (concat_map put_user us) (get_each-Reads us valid))

-- A listing of at most 255 users is read back, user by user.
pub get_listing-put_listing :
    (us : List User) → IsListing us → get_listing (put_listing us) ≡ some (received_listing us)
unfolding get_listing
get_listing-put_listing us h =
    let whole =
      run_reader-Reads read_listing (received_listing us) (put_listing us) []
        (read_listing-Reads us h) in
    rw append-nil at whole

-- `size` counts the bytes that the listing appends.
pub listing_size-put_listing : (us : List User) → length (put_listing us) ≡ listing_size us
unfolding put_listing listing_size users_size
listing_size-put_listing us = omega (arith, sizes us)
  where
    sizes : (vs : List User) → length (concat_map put_user vs) ≡ users_size vs
    sizes [] = refl
    sizes (v ∷ vs) =
        omega (
          arith,
          length-append (put_user v) (concat_map put_user vs),
          user_size-put_user v,
          sizes vs,
        )
