-- ===== src/Tests/Publications.antt =====
-- Objects of src/app/transaction_publisher_application.cpp.
use wall.Prelude.{String, [], arith, none, ◌≢◌}
use wall.Prelude.Text.{text_length}
use wall.Publisher.{read_fields}
use wall.Publisher.Termination.{read_fields_ends}

-- What is left of an object behind its brace, with a value that is in quotes and one that is not.
abbrev body : String
body = "\"user_id\": \"u\", \"price\": 5}"

read_fields_ends_example : read_fields 32 body [] ≢ none
unfolding text_length
read_fields_ends_example = read_fields_ends 32 body [] (omega arith)
