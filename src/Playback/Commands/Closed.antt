-- ===== src/Playback/Commands/Closed.antt =====
-- What the commands do once the controller is closed, and while it is open.
use hummtube.Domain.Vocabulary.{Duration}
use hummtube.Base.{ℤ, Bool, String, ◌≡◌, refl, true}
use hummtube.Playback.Commands
use hummtube.Playback.Commands.{Player, View, err_closed, Answer}

module _ (player : Player) (c : View) (s : player.State) where
  -- A closed controller answers every command that changes the player with `ErrClosed`, and the
  -- player is not called: its state stays.
  pub closed_refuses :
      c.closed ≡ true
      → (position : Duration) (level : ℤ) (decibels : player.Float) (factor : player.Float) (id : ℤ)
        (enabled : Bool) (device : String) (layout : String)
      → (Commands.toggle_pause player c s ≡ (err_closed, s))
        × (Commands.pause player c s ≡ (err_closed, s))
        × (Commands.resume player c s ≡ (err_closed, s))
        × (Commands.seek player c position s ≡ (err_closed, s))
        × (Commands.set_volume player c level s ≡ (err_closed, s))
        × (Commands.set_gain player c decibels s ≡ (err_closed, s))
        × (Commands.set_speed player c factor s ≡ (err_closed, s))
        × (Commands.set_audio_track player c id s ≡ (err_closed, s))
        × (Commands.set_subtitle_track player c id s ≡ (err_closed, s))
        × (Commands.set_subtitles_enabled player c enabled s ≡ (err_closed, s))
        × (Commands.set_audio_device player c device s ≡ (err_closed, s))
        × (Commands.set_audio_normalization player c enabled s ≡ (err_closed, s))
        × (Commands.set_audio_channels player c layout s ≡ (err_closed, s))
  unfolding Commands.toggle_pause Commands.pause Commands.resume Commands.seek Commands.set_volume
      Commands.set_gain Commands.set_speed Commands.set_audio_track Commands.set_subtitle_track
      Commands.set_subtitles_enabled Commands.set_audio_device Commands.set_audio_normalization
      Commands.set_audio_channels
  closed_refuses h position level decibels factor id enabled device layout =
      rw h (refl, refl, refl, refl, refl, refl, refl, refl, refl, refl, refl, refl, refl)
