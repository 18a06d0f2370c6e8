-- ===== src/World/Transcript.antt =====
-- What was said on the plugin's pipe.
use kee_pass_key_win.Prelude.{Option, none, some, List, [], ◌∷◌}
use kee_pass_key_win.World.Events.{Event, nonce_read, pipe_opened, pipe_closed, wrote, line_read}
use kee_pass_key_win.World.Outside.{History}

-- The pipes that were opened and closed, the texts that were written and the lines that were read,
-- newest first, each with all calls before it.
abbrev pub transcript : History → List (Event × History)
transcript [] = []
transcript (pipe_opened s h ∷ k) = (pipe_opened s h, k) ∷ transcript k
transcript (pipe_closed h ∷ k) = (pipe_closed h, k) ∷ transcript k
transcript (wrote h t ∷ k) = (wrote h t, k) ∷ transcript k
transcript (line_read h ∷ k) = (line_read h, k) ∷ transcript k
transcript (_ ∷ k) = transcript k

-- The calls before the registry was last asked for the nonce.
abbrev pub last_asked : History → Option History
last_asked [] = none
last_asked (nonce_read ∷ h) = some h
last_asked (_ ∷ h) = last_asked h
