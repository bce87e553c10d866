-- ===== src/Command/Numbering.antt =====
-- The indices that `getChannelsFromCapabilities` gives and how the search by index reads them.
use radio_container.Prelude.{
  subst, ℕ, zero, suc, ◌+◌, ◌*◌, ◌≡◌, refl, ◌∙◌, List, [], ◌∷◌, ◌++◌, All, length, Option, none,
  some, arith,
}
use radio_container.Prelude.Int.{ℤ, pos, eq_int_iff}
use radio_container.Adapter.{Channel, FrequencyProfile}
use radio_container.Radio.Channels.{channels_from, profiles_from, channels_of_profiles}
use radio_container.Command.Resolve.{find_channel}

module _ {F : Type 0} where
  unfoldable pub get_elem? : List F → ℕ → Option F
  get_elem? [] j = none
  get_elem? (x ∷ xs) zero = some x
  get_elem? (x ∷ xs) (suc j) = get_elem? xs j

  -- The frequencies of all profiles, in order.
  unfoldable pub all_frequencies : List (FrequencyProfile F) → List F
  all_frequencies [] = []
  all_frequencies (p ∷ ps) = p.frequencies ++ all_frequencies ps

  -- Channels that are numbered without a gap, the first as `b` + 1.
  numbered : ℕ → List F → List (Channel F)
  numbered b [] = []
  numbered b (x ∷ xs) = record { index = pos (b + 1); frequency_mhz = x } ∷ numbered (suc b) xs

  numbered-append :
      (b : ℕ) (xs ys : List F)
      → numbered b (xs ++ ys) ≡ numbered b xs ++ numbered (b + length xs) ys
  unfolding numbered
  numbered-append b [] ys = let e : b + 0 ≡ b = omega arith in rw e refl
  numbered-append b (x ∷ xs) ys =
      let e : b + suc (length xs) ≡ suc b + length xs = omega arith in
      rw (e, numbered-append (suc b) xs ys) refl

  channels_from-numbered :
      (offset j : ℕ) (xs : List F) → channels_from offset j xs ≡ numbered (offset + j) xs
  unfolding numbered channels_from
  channels_from-numbered offset j [] = refl
  channels_from-numbered offset j (x ∷ xs) =
      let e : offset + suc j ≡ suc (offset + j) = omega arith in
      rw (channels_from-numbered offset (suc j) xs, e) refl

  profiles_from-numbered :
      (n i : ℕ) (ps : List (FrequencyProfile F))
      → All (λ p. length p.frequencies ≡ n) ps
      → profiles_from i ps ≡ numbered (i * n) (all_frequencies ps)
  unfolding numbered profiles_from all_frequencies
  profiles_from-numbered n i [] h = refl
  profiles_from-numbered n i (p ∷ ps) (e, h) =
      let here : i * n + 0 ≡ i * n = omega arith in
      let next : i * n + n ≡ suc i * n = omega arith in
      rw
        (
          numbered-append (i * n) p.frequencies (all_frequencies ps),
          e,
          channels_from-numbered (i * n) 0 p.frequencies,
          profiles_from-numbered n (suc i) ps h,
          next,
          here,
        )
        refl

  find_channel-numbered :
      (b j : ℕ) (xs : List F) → find_channel (numbered b xs) (pos (suc (b + j))) ≡ get_elem? xs j
  unfolding numbered find_channel get_elem?
  find_channel-numbered b j [] = refl
  find_channel-numbered b zero (x ∷ xs) =
      ground (arith, eq_int_iff (pos (b + 1)) (pos (suc (b + 0))))
  find_channel-numbered b (suc j) (x ∷ xs) =
      ground (
        arith,
        eq_int_iff (pos (b + 1)) (pos (suc (b + suc j))),
        find_channel-numbered (suc b) j xs,
      )

  find_channel-first :
      (j : ℕ) (xs : List F) → find_channel (numbered 0 xs) (pos (suc j)) ≡ get_elem? xs j
  find_channel-first j xs =
      let e : 0 + j ≡ j = omega arith in
      subst (λ n. find_channel (numbered 0 xs) (pos (suc n)) ≡ get_elem? xs j) e
        (find_channel-numbered 0 j xs)

  -- Where all profiles have equally many frequencies, the channel with index `j` + 1 is the one with
  -- entry `j` of the profiles' frequencies in order, and there is no channel beyond them.
  pub find_channel-channels_of_profiles :
      (n j : ℕ) (ps : List (FrequencyProfile F))
      → All (λ p. length p.frequencies ≡ n) ps
      → find_channel (channels_of_profiles ps) (pos (suc j)) ≡ get_elem? (all_frequencies ps) j
  unfolding channels_of_profiles
  find_channel-channels_of_profiles n j ps h =
      let e : 0 * n ≡ 0 = omega arith in
      rw (profiles_from-numbered n 0 ps h, e) (find_channel-first j (all_frequencies ps))

  find_channel-append :
      (cs ds : List (Channel F)) (i : ℤ) (f : F)
      → find_channel cs i ≡ some f
      → find_channel (cs ++ ds) i ≡ some f
  unfolding find_channel
  find_channel-append [] ds i f h = absurd (cc)
  find_channel-append (c ∷ cs) ds i f h = ground (arith, find_channel-append cs ds i f)

  two_profiles :
      (p q : FrequencyProfile F) (rest : List (FrequencyProfile F))
      → channels_of_profiles (p ∷ q ∷ rest)
        ≡ channels_from 0 0 p.frequencies
          ++ (channels_from (length q.frequencies) 0 q.frequencies ++ profiles_from 2 rest)
  unfolding channels_of_profiles profiles_from
  two_profiles p q rest =
      let e : 0 * length p.frequencies ≡ 0 = omega arith in
      let e' : 1 * length q.frequencies ≡ length q.frequencies = omega arith in rw (e, e') refl

  first_of :
      (offset : ℕ) (f : F) (fs : List F)
      → channels_from offset 0 (f ∷ fs)
        ≡ record { index = pos (suc offset); frequency_mhz = f } ∷ channels_from offset 1 fs
  unfolding channels_from
  first_of offset f fs = let e : offset + 0 + 1 ≡ suc offset = omega arith in rw e refl

  -- Where the second profile has fewer frequencies than the first, its first channel is lost: it is
  -- in the list of channels, with its profile's number of frequencies + 1 as index, but the search for that index gives a
  -- frequency of the first profile.
  pub find_channel-shadowed :
      (p q : FrequencyProfile F) (rest : List (FrequencyProfile F)) (g f : F) (gs : List F)
      → q.frequencies ≡ g ∷ gs
      → get_elem? p.frequencies (length (g ∷ gs)) ≡ some f
      → ((before after : List (Channel F)) × (channels_of_profiles (p ∷ q ∷ rest)
            ≡ before ++ record { index = pos (suc (length (g ∷ gs))); frequency_mhz = g } ∷ after))
        × (find_channel (channels_of_profiles (p ∷ q ∷ rest)) (pos (suc (length (g ∷ gs))))
            ≡ some f)
  find_channel-shadowed p q rest g f gs e h =
      let after = channels_from (length (g ∷ gs)) 0 (g ∷ gs) ++ profiles_from 2 rest in
      let zero_sum : 0 ≡ 0 + 0 = omega arith in
      let found = find_channel-first (length (g ∷ gs)) p.frequencies ∙ h in
      (
        (
          channels_from 0 0 p.frequencies,
          channels_from (length (g ∷ gs)) 1 gs ++ profiles_from 2 rest,
          rw (two_profiles p q rest, e, first_of (length (g ∷ gs)) g gs) refl,
        ),
        rw (two_profiles p q rest, e)
            (find_channel-append (channels_from 0 0 p.frequencies) after _ f (
              rw (channels_from-numbered 0 0 p.frequencies) (
                subst
                  (λ n.
                    find_channel (numbered n p.frequencies) (pos (suc (length (g ∷ gs)))) ≡ some f)
                  zero_sum found))),
      )
