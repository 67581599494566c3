-- ===== src/Tests/Views.antt =====
-- Stores up to the order of their entries, at concrete inputs.
use native.Mathlib.Nat.{ℕ_set}
use easykafka_config_go.Prelude.{
  ℕ, ◌≡◌, refl, true, false, Option, none, some, [], ◌∷◌, ite, ℕ_discrete, arith, All, ◌==◌,
  if◌then◌else◌, sym, ◌∙◌, ap, Bool,
}
use easykafka_config_go.Text.{is_blank, trim_space, trim_left, trim_left_reversed}
use easykafka_config_go.Codec.{tombstone_on_blank_payload}
use easykafka_config_go.Driver.Event.{Record}
use easykafka_config_go.Store.View.{
  View, empty_view, put_view, delete_view, len_view, look, look-View, look-put_view,
}
use easykafka_config_go.Registration.{rejected, final_key}
use easykafka_config_go.Registration.Replay.{write_of}
use easykafka_config_go.Registration.Partitions.{
  of_partition, AtHome, contents_of, replay-of_partition,
}
use easykafka_config_go.Tests.{byte_key, byte_value, show_key, prices, record_of}

-- keys 1 and 2 put in either order
abbrev one_first : View ℕ_discrete ℕ
one_first = put_view ℕ_discrete 2 none (put_view ℕ_discrete 1 (some 5) (empty_view ℕ_discrete))

abbrev two_first : View ℕ_discrete ℕ
two_first = put_view ℕ_discrete 1 (some 5) (put_view ℕ_discrete 2 none (empty_view ℕ_discrete))

swapped : (p : ℕ) → look ℕ_discrete ℕ_set p one_first ≡ look ℕ_discrete ℕ_set p two_first
swapped p =
    look-put_view ℕ_discrete ℕ_set 2 p none (put_view ℕ_discrete 1 (some 5) (empty_view ℕ_discrete))
    ∙ ap (λ r. ite (ℕ_discrete p 2) (none, true) r)
        (look-put_view ℕ_discrete ℕ_set 1 p (some 5) (empty_view ℕ_discrete))
    ∙ swap_ite p (look ℕ_discrete ℕ_set p (empty_view ℕ_discrete))
    ∙ sym (
        look-put_view ℕ_discrete ℕ_set 1 p (some 5)
          (put_view ℕ_discrete 2 none (empty_view ℕ_discrete))
        ∙ ap (λ r. ite (ℕ_discrete p 1) (some 5, true) r)
            (look-put_view ℕ_discrete ℕ_set 2 p none (empty_view ℕ_discrete)))
  where
    swap_ite :
        (p : ℕ) (r : Option ℕ × Bool)
        → ite (ℕ_discrete p 2) (none, true) (ite (ℕ_discrete p 1) (some 5, true) r)
          ≡ ite (ℕ_discrete p 1) (some 5, true) (ite (ℕ_discrete p 2) (none, true) r)
    swap_ite p r = ground arith

look-View_example :
    (one_first ≡ two_first)
    × (len_view ℕ_discrete one_first ≡ len_view ℕ_discrete two_first)
    × (look ℕ_discrete ℕ_set 3 (put_view ℕ_discrete 3 (some 7) one_first)
        ≡ ite (ℕ_discrete 3 3) (some 7, true) (look ℕ_discrete ℕ_set 3 two_first))
    × (look ℕ_discrete ℕ_set 3 (delete_view ℕ_discrete 3 one_first)
        ≡ ite (ℕ_discrete 3 3) (none, false) (look ℕ_discrete ℕ_set 3 two_first))
    × (look ℕ_discrete ℕ_set 3 (empty_view ℕ_discrete) ≡ (none, false))
look-View_example = look-View ℕ_discrete ℕ_set 3 3 (some 7) one_first two_first swapped

-- key 1 in partition 0, any other key in partition 1
abbrev home : ℕ → ℕ
home k = if k == 1 then 0 else 1

abbrev of_one : Record × ℕ
of_one = (record_of (1 ∷ []) (65 ∷ []), 10)

-- the same record, applied later
abbrev later_one : Record × ℕ
later_one = (of_one.0, 30)

abbrev of_two : Record × ℕ
of_two = (record (record_of (2 ∷ []) (66 ∷ [])) { partition = 1 }, 10)

one_two :
    All (AtHome ℕ_discrete show_key true prices byte_key byte_value home) (of_one ∷ of_two ∷ [])
unfolding write_of ℕ_discrete tombstone_on_blank_payload is_blank trim_space trim_left
    trim_left_reversed rejected final_key
one_two = (refl, (refl, tt))

two_one :
    All (AtHome ℕ_discrete show_key true prices byte_key byte_value home) (of_two ∷ later_one ∷ [])
unfolding write_of ℕ_discrete tombstone_on_blank_payload is_blank trim_space trim_left
    trim_left_reversed rejected final_key
two_one = (refl, (refl, tt))

same_partitions :
    (p : ℕ) → of_partition p (of_one ∷ of_two ∷ []) ≡ of_partition p (of_two ∷ later_one ∷ [])
unfolding of_partition
same_partitions p = ground arith

replay-of_partition_example :
    contents_of ℕ_discrete show_key true prices byte_key byte_value (of_one ∷ of_two ∷ [])
    ≡ contents_of ℕ_discrete show_key true prices byte_key byte_value (of_two ∷ later_one ∷ [])
replay-of_partition_example =
    replay-of_partition ℕ_discrete show_key true prices byte_key byte_value home
      (of_one ∷ of_two ∷ []) (of_two ∷ later_one ∷ []) one_two two_one same_partitions
