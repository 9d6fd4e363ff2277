-- ===== src/Uuid/Examples.antt =====
-- Runs of src/uuid.c: the first number of the Mersenne Twister for its usual seed, and a text.
use emme.Prelude.{◌≡◌, refl, codes}
use emme.Uuid.{
  untouched, seed_from, init_random_state, twist_word, twist_ahead, twist_behind, twist, temper,
  generate_random, get_random_uint, print_hex, uuid_text,
}

first_number : (get_random_uint 5489 untouched).0 ≡ 3499211612
unfolding get_random_uint generate_random init_random_state seed_from twist twist_ahead twist_behind
    twist_word temper
first_number = refl

-- The node's eight last digits print 16 random bits, so its digits 5 to 8 are zero.
a_text :
    uuid_text 3499211612 581869302 3890346734 3586334585
    ≡ codes "d091bb5c-22ae-4ef6-8aee-d5c300001f79"
unfolding uuid_text print_hex
a_text = refl
