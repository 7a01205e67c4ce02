-- ===== src/Receipt/Tests.antt =====
-- Text on narrow paper.
use taskologic.Prelude.{◌≡◌, refl, [], ◌∷◌}
use taskologic.Prelude.Text.{text, is_whitespace}
use taskologic.Prelude.Lists.{All}
use taskologic.Receipt.Ink.{Fits, ink, inks}
use taskologic.Receipt.Lines.{wrap-Fits}
use taskologic.Receipt.{wrap, wrap_words, wrap_word, words_from, split_long, fit}

wrapped :
    wrap (text " water the  balconyplants now ") 8
    ≡ text "water" ∷ text "the" ∷ text "balconyp" ∷ text "lants" ∷ text "now" ∷ []
unfolding wrap wrap_words wrap_word words_from split_long is_whitespace
wrapped = refl

cut : fit (text "balcony") 4 ≡ text "bal~"
unfolding fit
cut = refl

wrap-Fits_example :
    All (Fits 8) (wrap (text " water the  balconyplants now ") 8)
    × (inks (wrap (text " water the  balconyplants now ") 8)
        ≡ ink (text " water the  balconyplants now "))
wrap-Fits_example = wrap-Fits (text " water the  balconyplants now ") 8
