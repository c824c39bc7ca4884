-- ===== src/SparkServer/Api/Status/Quotes.antt =====
-- `unwrapQuotes` on quoted texts.
use eight_sleep_pod2server.Prelude.{
  ℕ, ◌+◌, ◌≡◌, refl, [], ◌∷◌, ◌++◌, Bytes, length, get_or, length-append, take-append, arith,
}
use eight_sleep_pod2server.SparkServer.Api.Status.{unwrap_quotes}

abbrev pub quote : Bytes → Bytes
quote text = b'"' ∷ text ++ b'"' ∷ []

get_or_last : (text : Bytes) (b : ℕ) → get_or (text ++ b ∷ []) (length text) 0 ≡ b
get_or_last [] b = refl
get_or_last (c ∷ text) b = get_or_last text b

-- A text in quotes loses these and no more, whatever it holds.
pub unwrap_quotes-quote : (text : Bytes) → unwrap_quotes (quote text) ≡ text
unfolding unwrap_quotes
unwrap_quotes-quote text =
    let last : length (text ++ b'"' ∷ []) ≡ length text + 1 = length-append text (b'"' ∷ []) in
    ground (arith, last, get_or_last text b'"', take-append (length text) text (b'"' ∷ []) refl)
