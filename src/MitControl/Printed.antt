-- ===== src/MitControl/Printed.antt =====
-- The text that dm_openarm/examples/arm_mit_control.cpp writes.
use dmopenarm.Base.{Option, none, some, List, [], ◌∷◌, ◌++◌}
use dmopenarm.Text.{Text, codes}
use dmopenarm.Text.Print.{to_string}
use dmopenarm.Types.{MotorState}
use dmopenarm.MitControl.{
  Output, received, status_of, updated, homing, homing_all, stopping, rejected, usage, listening,
  interrupted, failed,
}

pub data Written : Type 0 where
  to_cout : Text → Written
  to_cerr : Text → Written

-- The newline.
abbrev end_line : Text
end_line = 10 ∷ []

-- What `<<` writes of a `double` is an argument.
module _ {D : Type 0} (show : D → Text) where
  abbrev status_line : MotorState D → D → Text
  status_line s target =
      codes "can_id="
      ++ (to_string s.can_id
          ++ (codes " position="
              ++ (show s.position
                  ++ (codes " velocity="
                      ++ (show s.velocity
                          ++ (codes " torque="
                              ++ (show s.torque
                                  ++ (codes " target="
                                      ++ (show target
                                          ++ (codes " feedback_interval_s="
                                              ++ (show s.feedback_interval_s ++ end_line)))))))))))

  abbrev with_line : Text → Option Text → Option Text
  with_line line (some more) = some (line ++ more)
  with_line line none = none

  -- None where `targets[i]` is not there.
  unfoldable pub print_status : List (MotorState D) → List D → Option Text
  print_status [] targets = some []
  print_status (s ∷ states) [] = none
  print_status (s ∷ states) (target ∷ targets) =
      with_line (status_line s target) (print_status states targets)

  abbrev cout_of : Option Text → Option Written
  cout_of (some text) = some (to_cout text)
  cout_of none = none

  abbrev example_lines : Text → Text
  example_lines fifo =
      codes "Examples:"
      ++ (end_line
          ++ (codes "  echo \"status\" > "
              ++ (fifo
                  ++ (end_line
                      ++ (codes "  echo \"move 0x01 0.08\" > "
                          ++ (fifo
                              ++ (end_line
                                  ++ (codes "  echo \"home 0x01\" > "
                                      ++ (fifo
                                          ++ (end_line
                                              ++ (codes "  echo \"stop\" > "
                                                  ++ (fifo ++ end_line))))))))))))

  unfoldable pub printed : Output D → Option Written
  unfolding print_status
  printed (received line) = some (to_cout (codes "received command: " ++ (line ++ end_line)))
  printed (status_of states targets) = cout_of (print_status states targets)
  printed (updated can_id target) = some (
      to_cout (
        codes "updated target can_id="
        ++ (to_string can_id ++ (codes " target=" ++ (show target ++ end_line)))))
  printed (homing can_id target) = some (
      to_cout (
        codes "homing can_id="
        ++ (to_string can_id ++ (codes " target=" ++ (show target ++ end_line)))))
  printed homing_all = some (to_cout (codes "homing all motors" ++ end_line))
  printed stopping = some (to_cout (codes "stopping MIT control loop" ++ end_line))
  printed (rejected why) = some (to_cerr (codes "Command rejected: " ++ (why ++ end_line)))
  printed (usage program) =
      some (to_cerr (codes "Usage: " ++ (program ++ (codes " <config.yaml>" ++ end_line))))
  printed (listening fifo kp kd velocity) = some (
      to_cout (
        codes "Listening for MIT commands on "
        ++ (fifo
            ++ (end_line
                ++ (codes "MIT gains: kp="
                    ++ (show kp
                        ++ (codes " kd="
                            ++ (show kd
                                ++ (codes " max_target_velocity_rad_per_s="
                                    ++ (show velocity ++ (end_line ++ example_lines fifo)))))))))))
  printed (interrupted signum) = some (
      to_cerr (
        end_line
        ++ (codes "Interrupt signal (" ++ (to_string signum ++ (codes ") received." ++ end_line)))))
  printed (failed why) = some (to_cerr (why ++ end_line))
