-- ===== src/Examples/Fields.antt =====
-- Records and fields at concrete inputs.
use burnout_paradise_server.Common.{
  ℕ, ◌+◌, ◌^◌, ◌≤◌, ◌≡◌, inl, inr, refl, List, [], ◌∷◌, none, some, arith, Bytes, codes, bytes_eq,
  All, length,
}
use burnout_paradise_server.Text.{runes, to_upper, fields, cut, equal_fold, is_field_end}
use burnout_paradise_server.Text.Trim.{trim_space, trim_right_byte, trim_byte}
use burnout_paradise_server.Number.{pos, atoi}
use burnout_paradise_server.Payload.{
  get_payload_field_value, get_payload_field, clean_field_value, get_local_account_name,
  get_safe_fields,
}
use burnout_paradise_server.Payload.Lines.{AreRows, are_key_bytes, key_bytes_lem, rows_text}
use burnout_paradise_server.Payload.Names.{
  IsPrintable, IsNameByte, clean_field_value_lem, get_local_account_name_lem,
}
use burnout_paradise_server.Payload.Secrets.{get_safe_fields-secret}
use burnout_paradise_server.Record.{zeros, valid_ranks, upload_entries, get_local_rank_list_record}
use burnout_paradise_server.Record.Ranks.{
  AreNew, upload-AreNew, entries_of, rank_list-answer, rank_list-panic,
}
use burnout_paradise_server.Lobby.Merge.{merge_keys, merge_local_game_request}
use burnout_paradise_server.Lobby.Merge.ReadBack.{merged_field, get-merge}

get-merge_example :
    get_payload_field_value
      (merge_local_game_request (codes "NAME=x\nSEED=5\n") (codes "seed=7\n"))
      (codes "SEED")
    ≡ merged_field (codes "NAME=x\nSEED=5\n") (codes "seed=7\n") (codes "SEED") merge_keys
get-merge_example = get-merge (codes "NAME=x\nSEED=5\n") (codes "seed=7\n") (codes "SEED")

abbrev rows : List (Bytes × Bytes)
rows = (codes "NAME", codes "\"x\" ") ∷ (codes "SEED", codes "5") ∷ []

clean_field_value_lem_example :
    (length (clean_field_value (codes "a\nb=c") 3 (codes "?")) ≤ 3)
    × All IsPrintable (clean_field_value (codes "a\nb=c") 3 (codes "?"))
clean_field_value_lem_example = clean_field_value_lem (codes "a\nb=c") 3 (codes "?") (omega arith)

get_local_account_name_lem_example :
    (1 ≤ length (get_local_account_name (codes "a b")))
    × (length (get_local_account_name (codes "a b")) ≤ 19)
    × All IsNameByte (get_local_account_name (codes "a b"))
get_local_account_name_lem_example = get_local_account_name_lem (codes "a b")

upload-AreNew_example :
    AreNew [] (valid_ranks [] (upload_entries (codes "R=3,3,200\nV=1,2,3\nC=a,b,c\n")))
upload-AreNew_example = upload-AreNew (codes "R=3,3,200\nV=1,2,3\nC=a,b,c\n")

two_asked : atoi (get_payload_field (codes "NUM=2\nSET=0\n") (codes "NUM")) ≡ some (pos 2)
unfolding get_payload_field atoi fields trim_right_byte cut trim_space equal_fold bytes_eq runes
    trim_byte
two_asked = refl

rank_list-answer_example :
    get_local_rank_list_record (codes "NUM=2\nSET=0\n")
    ≡ some (zeros (2 + entries_of (codes "NUM=2\nSET=0\n") 2))
rank_list-answer_example =
    rank_list-answer (codes "NUM=2\nSET=0\n") 2 two_asked (omega arith) (omega arith)

many_asked :
    atoi (get_payload_field (codes "NUM=4611686018427387904\nSET=0\n") (codes "NUM"))
    ≡ some (pos (2 ^ 62))
unfolding get_payload_field atoi fields trim_right_byte cut trim_space equal_fold bytes_eq runes
    trim_byte
many_asked = refl

set_zero : get_payload_field (codes "NUM=4611686018427387904\nSET=0\n") (codes "SET") ≡ codes "0"
unfolding get_payload_field fields trim_right_byte cut trim_space equal_fold bytes_eq runes
    trim_byte
set_zero = refl

rank_list-panic_example :
    get_local_rank_list_record (codes "NUM=4611686018427387904\nSET=0\n") ≡ none
rank_list-panic_example =
    rank_list-panic (codes "NUM=4611686018427387904\nSET=0\n") (2 ^ 62) many_asked set_zero
      (omega arith) (omega arith)

abbrev login_as : ℕ → List (Bytes × Bytes)
login_as digit = (codes "NAME", codes "x") ∷ (codes "PASS", digit ∷ []) ∷ []

one-AreRows : AreRows (login_as 49)
unfolding are_key_bytes is_field_end
one-AreRows = (
  (key_bytes_lem (codes "NAME") refl, (refl, tt)),
  ((key_bytes_lem (codes "PASS") refl, (refl, tt)), tt),
)

two-AreRows : AreRows (login_as 50)
unfolding are_key_bytes is_field_end
two-AreRows = (
  (key_bytes_lem (codes "NAME") refl, (refl, tt)),
  ((key_bytes_lem (codes "PASS") refl, (refl, tt)), tt),
)

get_safe_fields-secret_example :
    get_safe_fields (rows_text (login_as 49) (0 ∷ []))
    ≡ get_safe_fields (rows_text (login_as 50) (0 ∷ []))
unfolding runes to_upper
get_safe_fields-secret_example =
    get_safe_fields-secret (login_as 49) (login_as 50) one-AreRows two-AreRows
      (refl, inr refl, (refl, inl (inl refl), tt))
